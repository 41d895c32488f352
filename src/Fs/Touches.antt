-- ===== src/Fs/Touches.antt =====
-- Which paths the operations touch. A predicate on the file tree that is stable there holds after
-- the operation, however it ends and whichever of its calls fail.
pub mod Objects
pub mod Buckets
pub mod Multipart
pub mod Layout
pub mod Frame
pub mod Unnamed
pub mod Kept
