-- ===== src/Fs.antt =====
-- internal/storage/fs: the filesystem backend.
pub mod Paths
pub mod Names
pub mod Metadata
pub mod Buckets
pub mod Objects
pub mod Listing
pub mod Parts
pub mod Multipart
pub mod Touches
pub mod History
pub mod Runs
pub mod Implements
pub mod Abstract
