-- ===== src/Api/Handler.antt =====
-- internal/api/handler.go: which handler a request gets.
use home_store.Prelude.{not, Option, none, some, [], if◌then◌else◌}
use home_store.Prelude.Bytes.{Bytes, codes, bytes_eq, split_once, trim_prefix}
use home_store.Os.Exec.{Fs, pure}
use home_store.Backend.{Backend}
use home_store.Http.{
  Method, get, put, post, delete, head, unknown, HttpRequest, HttpResponse, http_error, query_has,
  query_get, header_get,
}
use home_store.S3.{invalid_request}
use home_store.Api.Responses.{Library, error_response, trim_slash}
use home_store.Api.Buckets.{
  handle_list_buckets, handle_create_bucket, handle_delete_bucket, handle_head_bucket,
}
use home_store.Api.Objects.{
  handle_put_object, handle_get_object, handle_head_object, handle_delete_object,
  handle_copy_object, handle_rename_object, handle_get_object_attributes,
}
use home_store.Api.Lists.{
  handle_get_bucket_location, handle_list_objects, handle_list_objects_v2, handle_delete_objects,
}
use home_store.Api.Multipart.{
  handle_create_multipart_upload, handle_upload_part, handle_complete_multipart_upload,
  handle_abort_multipart_upload, handle_list_multipart_uploads, handle_list_parts,
}

-- The handlers, and the two ways to refuse a method.
pub data Route : Type 0 where
  list_buckets create_bucket delete_bucket head_bucket : Route
  get_bucket_location list_multipart_uploads list_objects_v2 list_objects delete_objects : Route
  list_parts upload_part complete_multipart_upload abort_multipart_upload : Route
  create_multipart_upload rename_object get_object_attributes : Route
  get_object copy_object put_object delete_object head_object : Route
  not_allowed invalid_method : Route

abbrev pub root_route : Method → Route
root_route get = list_buckets
root_route _ = not_allowed

module _ (r : HttpRequest) where
  -- GET of a bucket.
  abbrev pub bucket_get_route : Route
  bucket_get_route =
      if query_has (codes "location") r.query
      then get_bucket_location
      else if query_has (codes "uploads") r.query
      then list_multipart_uploads
      else if bytes_eq (query_get (codes "list-type") r.query) (codes "2")
      then list_objects_v2
      else list_objects

  abbrev pub bucket_route : Method → Route
  bucket_route get = bucket_get_route
  bucket_route post = if query_has (codes "delete") r.query then delete_objects else not_allowed
  bucket_route put = create_bucket
  bucket_route delete = delete_bucket
  bucket_route head = head_bucket
  bucket_route unknown = not_allowed

  -- With `uploadId` in the query.
  abbrev pub upload_route : Method → Route
  upload_route get = list_parts
  upload_route put = upload_part
  upload_route post = complete_multipart_upload
  upload_route delete = abort_multipart_upload
  upload_route _ = invalid_method

  abbrev pub object_route : Method → Route
  object_route post =
      if query_has (codes "uploads") r.query then create_multipart_upload else not_allowed
  object_route put =
      if query_has (codes "renameObject") r.query
      then rename_object
      else if not (bytes_eq (header_get (codes "x-amz-copy-source") r.header) [])
      then copy_object
      else put_object
  object_route get =
      if query_has (codes "attributes") r.query then get_object_attributes else get_object
  object_route delete = delete_object
  object_route head = head_object
  object_route unknown = not_allowed

  -- By the slash after the bucket.
  abbrev pub part_route : Option Bytes → Route
  part_route none = bucket_route r.method
  part_route (some key) =
      if query_has (codes "uploadId") r.query then upload_route r.method else object_route r.method

  unfoldable pub route : Route
  unfolding bytes_eq query_has query_get header_get trim_prefix split_once
  route =
      if bytes_eq r.path (codes "/")
      then root_route r.method
      else part_route (split_once b'/' (trim_slash r.path)).1

module _ (lib : Library) (backend : Backend) where
  abbrev pub run_route : Route → HttpRequest → Fs HttpResponse
  run_route list_buckets = handle_list_buckets lib backend
  run_route create_bucket = handle_create_bucket lib backend
  run_route delete_bucket = handle_delete_bucket lib backend
  run_route head_bucket = handle_head_bucket lib backend
  run_route get_bucket_location = handle_get_bucket_location lib backend
  run_route list_multipart_uploads = handle_list_multipart_uploads lib backend
  run_route list_objects_v2 = handle_list_objects_v2 lib backend
  run_route list_objects = handle_list_objects lib backend
  run_route delete_objects = handle_delete_objects lib backend
  run_route list_parts = handle_list_parts lib backend
  run_route upload_part = handle_upload_part lib backend
  run_route complete_multipart_upload = handle_complete_multipart_upload lib backend
  run_route abort_multipart_upload = handle_abort_multipart_upload lib backend
  run_route create_multipart_upload = handle_create_multipart_upload lib backend
  run_route rename_object = handle_rename_object lib backend
  run_route get_object_attributes = handle_get_object_attributes lib backend
  run_route get_object = handle_get_object lib backend
  run_route copy_object = handle_copy_object lib backend
  run_route put_object = handle_put_object lib backend
  run_route delete_object = handle_delete_object lib backend
  run_route head_object = handle_head_object lib backend
  run_route not_allowed = λ r. pure (http_error (codes "method not allowed") 405)
  run_route invalid_method =
      λ r. pure (error_response lib 405 invalid_request (codes "method not allowed"))

  -- ServeHTTP and routeRequest.
  unfoldable pub route_request : HttpRequest → Fs HttpResponse
  unfolding route
  route_request r = run_route (route r) r
