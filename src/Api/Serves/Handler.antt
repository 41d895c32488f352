-- ===== src/Api/Serves/Handler.antt =====
-- internal/api/handler.go: whatever the request is, the handler that it gets answers and keeps.
use home_store.Prelude.{◌≡◌, refl, arith, Bool, true, false, Option, none, some}
use home_store.Prelude.Bytes.{Bytes, split_once}
use home_store.Os.Disk.{Disk}
use home_store.Backend.{Backend}
use home_store.Http.{Method, get, put, post, delete, head, unknown, HttpRequest}
use home_store.Api.Responses.{Library, trim_slash, whole_bucket}
use home_store.Api.Parse.{split_once-none}
use home_store.Api.Handler.{
  Route, list_buckets, create_bucket, delete_bucket, head_bucket, get_bucket_location,
  list_multipart_uploads, list_objects_v2, list_objects, delete_objects, list_parts, upload_part,
  complete_multipart_upload, abort_multipart_upload, create_multipart_upload, rename_object,
  get_object_attributes, get_object, copy_object, put_object, delete_object, head_object,
  not_allowed, invalid_method, root_route, bucket_route, upload_route, object_route, part_route,
  route, run_route, route_request,
}
use home_store.Api.Serves.{Serves, Serves-pure}
use home_store.Backend.Keeps.{KeepsReads, KeepsWrites, IsBare}
use home_store.Api.Serves.Buckets.{
  handle_list_buckets-Serves, handle_create_bucket-Serves, handle_delete_bucket-Serves,
  handle_head_bucket-Serves,
}
use home_store.Api.Serves.Objects.{
  handle_put_object-Serves, handle_get_object-Serves, handle_head_object-Serves,
  handle_delete_object-Serves, handle_copy_object-Serves, handle_rename_object-Serves,
  handle_get_object_attributes-Serves,
}
use home_store.Api.Serves.Lists.{
  handle_get_bucket_location-Serves, handle_list_objects-Serves, handle_list_objects_v2-Serves,
  handle_delete_objects-Serves,
}
use home_store.Api.Serves.Multipart.{
  handle_create_multipart_upload-Serves, handle_upload_part-Serves,
  handle_complete_multipart_upload-Serves, handle_abort_multipart_upload-Serves,
  handle_list_multipart_uploads-Serves, handle_list_parts-Serves,
}

-- The routes that call no operation that writes.
abbrev pub reads_only : Route → Bool
reads_only list_buckets = true
reads_only head_bucket = true
reads_only get_bucket_location = true
reads_only list_multipart_uploads = true
reads_only list_objects_v2 = true
reads_only list_objects = true
reads_only list_parts = true
reads_only get_object_attributes = true
reads_only get_object = true
reads_only head_object = true
reads_only not_allowed = true
reads_only invalid_method = true
reads_only _ = false

-- The routes that a path with a key does not take.
abbrev needs_bare : Route → Bool
needs_bare delete_objects = true
needs_bare _ = false

module _ (r : HttpRequest) where
  upload_route-needs : (m : Method) → needs_bare (upload_route r m) ≡ false
  upload_route-needs get = refl
  upload_route-needs put = refl
  upload_route-needs post = refl
  upload_route-needs delete = refl
  upload_route-needs _ = refl

  object_route-needs : (m : Method) → needs_bare (object_route r m) ≡ false
  object_route-needs get = ground arith
  object_route-needs put = ground arith
  object_route-needs post = ground arith
  object_route-needs delete = refl
  object_route-needs head = refl
  object_route-needs unknown = refl

  root_route-needs : (m : Method) → needs_bare (root_route m) ≡ false
  root_route-needs get = refl
  root_route-needs _ = refl

  part_route-needs :
      (k : Option _)
      → (split_once b'/' (trim_slash r.path)).1 ≡ k
      → needs_bare (part_route r k) ≡ true
      → IsBare (whole_bucket r)
  part_route-needs none e h = split_once-none (trim_slash r.path) e
  part_route-needs (some k) e h =
      ground (arith, upload_route-needs r.method, object_route-needs r.method)

  route-needs : needs_bare (route r) ≡ true → IsBare (whole_bucket r)
  unfolding route
  route-needs h = ground (
    arith,
    root_route-needs r.method,
    part_route-needs (split_once b'/' (trim_slash r.path)).1 refl,
  )

-- The methods that ask and do not change.
abbrev pub is_safe : Method → Bool
is_safe get = true
is_safe head = true
is_safe _ = false

module _ (r : HttpRequest) where
  upload_route-reads : (m : Method) → is_safe m ≡ true → reads_only (upload_route r m) ≡ true
  upload_route-reads get h = refl
  upload_route-reads head h = refl
  upload_route-reads _ h = cc

  object_route-reads : (m : Method) → is_safe m ≡ true → reads_only (object_route r m) ≡ true
  object_route-reads get h = ground arith
  object_route-reads head h = refl
  object_route-reads _ h = cc

  bucket_route-reads : (m : Method) → is_safe m ≡ true → reads_only (bucket_route r m) ≡ true
  bucket_route-reads get h = ground arith
  bucket_route-reads head h = refl
  bucket_route-reads _ h = cc

  root_route-reads : (m : Method) → reads_only (root_route m) ≡ true
  root_route-reads get = refl
  root_route-reads _ = refl

  part_route-reads :
      (k : Option Bytes) → is_safe r.method ≡ true → reads_only (part_route r k) ≡ true
  part_route-reads none h = bucket_route-reads r.method h
  part_route-reads (some k) h =
      ground (arith, upload_route-reads r.method h, object_route-reads r.method h)

  route-reads : is_safe r.method ≡ true → reads_only (route r) ≡ true
  unfolding route
  route-reads h =
      ground (
        arith,
        root_route-reads r.method,
        part_route-reads (split_once b'/' (trim_slash r.path)).1 h,
      )

module _ (lib : Library) {P : Disk → Type 0} (b : Backend) where
  run_reads-Serves :
      KeepsReads P b
      → (x : Route) (r : HttpRequest) → reads_only x ≡ true
      → Serves P (run_route lib b x r)
  run_reads-Serves k list_buckets r h = handle_list_buckets-Serves lib b k r
  run_reads-Serves k head_bucket r h = handle_head_bucket-Serves lib b k r
  run_reads-Serves k get_bucket_location r h = handle_get_bucket_location-Serves lib b k r
  run_reads-Serves k list_multipart_uploads r h = handle_list_multipart_uploads-Serves lib b k r
  run_reads-Serves k list_objects_v2 r h = handle_list_objects_v2-Serves lib b k r
  run_reads-Serves k list_objects r h = handle_list_objects-Serves lib b k r
  run_reads-Serves k list_parts r h = handle_list_parts-Serves lib b k r
  run_reads-Serves k get_object_attributes r h = handle_get_object_attributes-Serves lib b k r
  run_reads-Serves k get_object r h = handle_get_object-Serves lib b k r
  run_reads-Serves k head_object r h = handle_head_object-Serves lib b k r
  run_reads-Serves k not_allowed r h = Serves-pure _ refl
  run_reads-Serves k invalid_method r h = Serves-pure _ refl
  run_reads-Serves k _ r h = cc

  run_route-Serves :
      KeepsReads P b
      → KeepsWrites P b
      → (x : Route) (r : HttpRequest) → (needs_bare x ≡ true → IsBare (whole_bucket r))
      → Serves P (run_route lib b x r)
  run_route-Serves k w create_bucket r h = handle_create_bucket-Serves lib b w r
  run_route-Serves k w delete_bucket r h = handle_delete_bucket-Serves lib b w r
  run_route-Serves k w delete_objects r h = handle_delete_objects-Serves lib b k w r (h refl)
  run_route-Serves k w upload_part r h = handle_upload_part-Serves lib b k w r
  run_route-Serves k w complete_multipart_upload r h =
      handle_complete_multipart_upload-Serves lib b k w r
  run_route-Serves k w abort_multipart_upload r h = handle_abort_multipart_upload-Serves lib b k w r
  run_route-Serves k w create_multipart_upload r h =
      handle_create_multipart_upload-Serves lib b k w r
  run_route-Serves k w rename_object r h = handle_rename_object-Serves lib b k w r
  run_route-Serves k w copy_object r h = handle_copy_object-Serves lib b k w r
  run_route-Serves k w put_object r h = handle_put_object-Serves lib b k w r
  run_route-Serves k w delete_object r h = handle_delete_object-Serves lib b k w r
  run_route-Serves k w x r h = run_reads-Serves k x r refl

  -- The operations keep P, so the answer to any request does.
  pub route_request-Serves :
      KeepsReads P b → KeepsWrites P b → (r : HttpRequest) → Serves P (route_request lib b r)
  unfolding route_request
  route_request-Serves k w r = run_route-Serves k w (route r) r (route-needs r)

  -- A request that only asks calls no operation that writes.
  pub safe_request-Serves :
      KeepsReads P b
      → (r : HttpRequest) → is_safe r.method ≡ true
      → Serves P (route_request lib b r)
  unfolding route_request
  safe_request-Serves k r h = run_reads-Serves k (route r) r (route-reads r h)
