-- ===== src/Wire.antt =====
-- What passes between the programs: the operating system's calls, and the bytes of the messages.
pub mod System
pub mod Text
pub mod Request
pub mod Roundtrip
pub mod Serve
pub mod Overread
pub mod Retry
pub mod Numbers
pub mod Tests
