-- ===== src/Backend.antt =====
-- internal/storage/storage.go: the interface Backend, which the handlers call.
pub mod Keeps
use home_store.Prelude.{ℕ, Bool, List}
use home_store.Prelude.Bytes.{Bytes}
use home_store.Storage.{
  BucketInfo, ObjectMeta, ListOptions, ListResult, MultipartUpload, MultipartPart, CompletedPart,
}
use home_store.Os.Exec.{Fs}
use home_store.Os.Calls.{Reader}

pub record Backend : Type 0 where
  pub create_bucket : Bytes → Fs Unit
  pub delete_bucket : Bytes → Fs Unit
  pub list_buckets : Fs (List BucketInfo)
  pub bucket_exists : Bytes → Fs Bool
  pub get_bucket_location : Bytes → Fs Bytes
  pub put_object : Bytes → Bytes → Reader → ObjectMeta → Fs Unit
  pub get_object : Bytes → Bytes → Fs (Reader × ObjectMeta)
  pub delete_object : Bytes → Bytes → Fs Unit
  pub head_object : Bytes → Bytes → Fs ObjectMeta
  pub copy_object : Bytes → Bytes → Bytes → Bytes → Fs ObjectMeta
  pub rename_object : Bytes → Bytes → Bytes → Bytes → Fs ObjectMeta
  pub list_objects : Bytes → ListOptions → Fs ListResult
  pub create_multipart_upload : Bytes → Bytes → ObjectMeta → Fs MultipartUpload
  pub upload_part : Bytes → Bytes → Bytes → ℕ → Reader → Fs MultipartPart
  pub complete_multipart_upload : Bytes → Bytes → Bytes → List CompletedPart → Fs ObjectMeta
  pub abort_multipart_upload : Bytes → Bytes → Bytes → Fs Unit
  pub list_multipart_uploads : Bytes → Fs (List MultipartUpload)
  pub list_parts : Bytes → Bytes → Bytes → Fs (List MultipartPart)
