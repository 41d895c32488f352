-- ===== src/Tests.antt =====
-- Runs of the model, and the theorems at concrete inputs.
pub mod Data
pub mod RequestData
mod Backend
mod Examples
mod Requests
mod Uploads
mod Copies
