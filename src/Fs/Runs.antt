-- ===== src/Fs/Runs.antt =====
-- internal/storage/fs: what the operations give where no call fails for an outside reason.
pub mod Places
pub mod Put
pub mod Replace
pub mod RoundTrip
pub mod Missing
pub mod Moves
pub mod Orphan
pub mod Uploads
pub mod Buckets
pub mod Atomic
