-- ===== src/Os.antt =====
-- What the backend uses of the standard library: package os on a file tree, and the functions
-- that it takes as given (hashes, the clock, random bytes, encoding/json).
pub mod Path
pub mod Disk
pub mod Exec
pub mod Calls
pub mod Stable
pub mod Layout
pub mod Calm
pub mod Ends
