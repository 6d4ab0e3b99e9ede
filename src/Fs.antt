-- ===== src/Fs.antt =====
-- The file system of parte-2/fs: the tables of state.c and the operations of operations.c.
pub mod State
pub mod Blocks
pub mod Inodes
pub mod Dir
pub mod OpenFiles
pub mod Operations
pub mod Invariant
pub mod Pointers
pub mod Content
pub mod Create
pub mod Root
pub mod Existing
pub mod Open
pub mod Init
pub mod Handles
pub mod Write
pub mod Read
pub mod Calls
pub mod RoundTrip
pub mod Limits
pub mod Shutdown
pub mod Race
pub mod Waiting
mod Tests
