-- ===== src/Api.antt =====
-- internal/api: the HTTP handlers of the S3 API.
pub mod Responses
pub mod Buckets
pub mod Objects
pub mod Lists
pub mod Multipart
pub mod Handler
pub mod Parse
pub mod Serves
pub mod Answers
pub mod History
pub mod Runs
pub mod Pages
