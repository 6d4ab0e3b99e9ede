-- ===== src/First.antt =====
-- The first version of the file system (parte-1): files of several blocks, and a lock for each node
-- and each open file.
pub mod State
pub mod Blocks
pub mod Inodes
pub mod Dir
pub mod OpenFiles
pub mod Operations
pub mod Content
pub mod Text
pub mod Locked
pub mod Sound
pub mod Puts
pub mod Written
pub mod Joins
pub mod WriteLoop
pub mod Writes
pub mod Opens
pub mod Copies
pub mod CopyLoop
pub mod Limits
pub mod Ends
pub mod Reads
pub mod ReadLoop
pub mod RoundTrip
pub mod Truncation
pub mod References
pub mod Sample
mod Tests
