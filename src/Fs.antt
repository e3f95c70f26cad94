-- ===== src/Fs.antt =====
-- TécnicoFS, the in-memory file system that stores the boxes (fs/).
pub mod Memory
pub mod State
pub mod Blocks
pub mod Inodes
pub mod Directory
pub mod OpenFiles
pub mod Mutex
pub mod Operations
pub mod Invariant
pub mod Lookup
pub mod Update
pub mod Release
pub mod Unlink
pub mod Open
pub mod Rewrite
pub mod Write
pub mod Read
pub mod Handles
pub mod Init
pub mod Errors
pub mod Roundtrip
pub mod Append
pub mod Reread
pub mod Twice
pub mod Rollback
pub mod Tests
