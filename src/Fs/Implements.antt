-- ===== src/Fs/Implements.antt =====
-- internal/storage/fs: FSBackend as a value of the interface.
use home_store.Backend.{Backend}
use home_store.Os.Calls.{Env}
use home_store.Fs.Buckets.{
  create_bucket, delete_bucket, list_buckets, bucket_exists, get_bucket_location,
}
use home_store.Fs.Objects.{
  put_object, get_object, delete_object, head_object, copy_object, rename_object,
}
use home_store.Fs.Listing.{list_objects}
use home_store.Fs.Multipart.{
  create_multipart_upload, upload_part, complete_multipart_upload, abort_multipart_upload,
  list_multipart_uploads, list_parts,
}

abbrev pub fs_backend : Env → Backend
fs_backend env = record {
  create_bucket = create_bucket env;
  delete_bucket = delete_bucket;
  list_buckets = list_buckets;
  bucket_exists = bucket_exists;
  get_bucket_location = get_bucket_location;
  put_object = put_object env;
  get_object = get_object env;
  delete_object = delete_object env;
  head_object = head_object env;
  copy_object = copy_object env;
  rename_object = rename_object env;
  list_objects = list_objects;
  create_multipart_upload = create_multipart_upload env;
  upload_part = upload_part env;
  complete_multipart_upload = complete_multipart_upload env;
  abort_multipart_upload = abort_multipart_upload env;
  list_multipart_uploads = list_multipart_uploads;
  list_parts = list_parts env;
}
