-- ===== src/Net.antt =====
-- The server and its clients: the bytes that go over the pipes.
pub mod Transfer
pub mod Wire
pub mod Client
pub mod Receiver
pub mod Worker
pub mod Fields
pub mod Requests
pub mod Mounts
pub mod Limits
pub mod Answers
pub mod Service
pub mod Remote
pub mod Ranges
pub mod Pipes
pub mod System
mod Tests
