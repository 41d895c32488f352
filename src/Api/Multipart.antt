-- ===== src/Api/Multipart.antt =====
-- internal/api/multipart.go: the handlers of multipart uploads.
use home_store.Prelude.{ℕ, Option, none, some, List, [], ◌∷◌, map, if◌then◌else◌}
use home_store.Prelude.Bytes.{Bytes, codes, bytes_eq, trim_prefix}
use home_store.Storage.{
  ObjectMeta, MultipartUpload, MultipartPart, CompletedPart, Error, bucket_not_found,
  upload_not_found, invalid_part as part_error,
}
use home_store.Os.Exec.{Result, ok, err, Fs, pure, attempt, ◌>>=◌}
use home_store.Os.Calls.{Reader}
use home_store.Backend.{Backend}
use home_store.Http.{HttpRequest, HttpResponse, query_get, header_get}
use home_store.Http.Numbers.{ℤ, pos, negsuc, atoi}
use home_store.Http.Escape.{path_unescape}
use home_store.S3.{internal_error, invalid_request, no_such_bucket, no_such_upload, invalid_part}
use home_store.S3.Types
use home_store.S3.Types.{
  CompleteMultipartUploadRequest, initiated, completed, parts, uploads, copied_part,
}
use home_store.Api.Responses.{
  Library, xml_response, error_response, bare, trim_slash, bucket_of, key_of, whole_bucket,
  request_meta, source_of,
}

-- The part number that UploadPart gets. It refuses every number below 1, so 0 stands for those.
abbrev pub part_number_of : ℤ → ℕ
part_number_of (pos n) = n
part_number_of (negsuc n) = 0

abbrev pub selected_part : Types.CompletedPart → CompletedPart
selected_part p = record { part_number = p.part_number; etag = p.etag }

abbrev pub upload_id_of : HttpRequest → Bytes
upload_id_of r = query_get (codes "uploadId") r.query

module _ (lib : Library) where
  abbrev pub multipart_error : Error → HttpResponse
  multipart_error bucket_not_found =
      error_response lib 404 no_such_bucket (codes "bucket does not exist")
  multipart_error upload_not_found =
      error_response lib 404 no_such_upload (codes "the specified multipart upload does not exist")
  multipart_error part_error =
      error_response lib 400 invalid_part (codes "one or more specified parts could not be found")
  multipart_error _ =
      error_response lib 500 internal_error (codes "multipart upload operation failed")

  abbrev pub initiated_response : HttpRequest → Result MultipartUpload → HttpResponse
  initiated_response r (err e) = multipart_error e
  initiated_response r (ok upload) =
      xml_response 200
        (initiated (record { bucket = bucket_of r; key = key_of r; upload_id = upload.upload_id }))

  abbrev pub part_response : Result MultipartPart → HttpResponse
  part_response (err e) = multipart_error e
  part_response (ok part) = bare 200 ((codes "ETag", part.etag) ∷ [])

  abbrev pub copied_part_response : Result MultipartPart → HttpResponse
  copied_part_response (err e) = multipart_error e
  copied_part_response (ok part) =
      xml_response 200
        (copied_part (record { etag = part.etag; last_modified = lib.rfc3339 part.last_modified }))

  abbrev pub completed_response : HttpRequest → Result ObjectMeta → HttpResponse
  completed_response r (err e) = multipart_error e
  completed_response r (ok meta) = xml_response 200 (
      completed
        (record { location = r.path; bucket = bucket_of r; key = key_of r; etag = meta.etag }))

  abbrev pub aborted_response : Result Unit → HttpResponse
  aborted_response (err e) = multipart_error e
  aborted_response (ok _) = bare 204 []

  abbrev pub upload_entry : MultipartUpload → Types.MultipartUpload
  upload_entry u = record {
    key = u.key;
    upload_id = u.upload_id;
    initiated = lib.rfc3339 u.initiated;
  }

  abbrev pub uploads_response : HttpRequest → Result (List MultipartUpload) → HttpResponse
  uploads_response r (err e) = multipart_error e
  uploads_response r (ok us) =
      xml_response 200 (uploads (record { bucket = whole_bucket r; uploads = map upload_entry us }))

  abbrev pub part_entry : MultipartPart → Types.MultipartPart
  part_entry p = record {
    part_number = p.part_number;
    last_modified = lib.rfc3339 p.last_modified;
    etag = p.etag;
    size = p.size;
  }

  abbrev pub parts_response : HttpRequest → Result (List MultipartPart) → HttpResponse
  parts_response r (err e) = multipart_error e
  parts_response r (ok ps) = xml_response 200 (
      parts (record {
        bucket = bucket_of r;
        key = key_of r;
        upload_id = upload_id_of r;
        parts = map part_entry ps;
      }))

  module _ (backend : Backend) where
    unfoldable pub handle_create_multipart_upload : HttpRequest → Fs HttpResponse
    handle_create_multipart_upload r = do
      upload ← attempt (backend.create_multipart_upload (bucket_of r) (key_of r) (request_meta r))
      pure (initiated_response r upload)

    -- A part from the body of the request.
    abbrev pub upload_body : HttpRequest → ℕ → Fs HttpResponse
    upload_body r n = do
      part ← attempt (backend.upload_part (bucket_of r) (key_of r) (upload_id_of r) n r.body)
      pure (part_response part)

    -- A part from an object that was opened.
    abbrev pub upload_copy : HttpRequest → ℕ → Result (Reader × ObjectMeta) → Fs HttpResponse
    upload_copy r n (err e) = pure (multipart_error e)
    upload_copy r n (ok (reader, _)) = do
      part ← attempt (backend.upload_part (bucket_of r) (key_of r) (upload_id_of r) n reader)
      pure (copied_part_response part)

    abbrev pub upload_source : HttpRequest → ℕ → Option (Bytes × Bytes) → Fs HttpResponse
    upload_source r n none =
        pure (error_response lib 400 invalid_request (codes "invalid x-amz-copy-source header"))
    upload_source r n (some (bucket, key)) = do
      found ← attempt (backend.get_object bucket key)
      upload_copy r n found

    -- A source that cannot be unescaped gets the same answer as one that cannot be cut.
    abbrev pub unescaped_part_source : Option Bytes → Option (Bytes × Bytes)
    unescaped_part_source none = none
    unescaped_part_source (some source) = source_of source

    abbrev pub upload_numbered : HttpRequest → Bytes → Option ℤ → Fs HttpResponse
    upload_numbered r source none =
        pure (error_response lib 400 invalid_part (codes "invalid part number"))
    upload_numbered r source (some n) =
        if bytes_eq source []
        then upload_body r (part_number_of n)
        else upload_source r (part_number_of n)
            (unescaped_part_source (path_unescape (trim_slash source)))

    unfoldable pub handle_upload_part : HttpRequest → Fs HttpResponse
    unfolding query_get header_get atoi bytes_eq path_unescape trim_prefix source_of
    handle_upload_part r =
        upload_numbered r (header_get (codes "x-amz-copy-source") r.header)
          (atoi (query_get (codes "partNumber") r.query))

    abbrev pub complete_decoded :
        HttpRequest → Option CompleteMultipartUploadRequest → Fs HttpResponse
    complete_decoded r none =
        pure (error_response lib 400 invalid_request (codes "invalid multipart completion request"))
    complete_decoded r (some request) = do
      meta ← attempt (
          backend.complete_multipart_upload (bucket_of r) (key_of r) (upload_id_of r)
            (map selected_part request.parts))
      pure (completed_response r meta)

    unfoldable pub handle_complete_multipart_upload : HttpRequest → Fs HttpResponse
    unfolding query_get
    handle_complete_multipart_upload r = complete_decoded r (lib.decode_complete r.body)

    unfoldable pub handle_abort_multipart_upload : HttpRequest → Fs HttpResponse
    unfolding query_get
    handle_abort_multipart_upload r = do
      aborted ← attempt (backend.abort_multipart_upload (bucket_of r) (key_of r) (upload_id_of r))
      pure (aborted_response aborted)

    unfoldable pub handle_list_multipart_uploads : HttpRequest → Fs HttpResponse
    handle_list_multipart_uploads r = do
      listed ← attempt (backend.list_multipart_uploads (whole_bucket r))
      pure (uploads_response r listed)

    unfoldable pub handle_list_parts : HttpRequest → Fs HttpResponse
    unfolding query_get
    handle_list_parts r = do
      listed ← attempt (backend.list_parts (bucket_of r) (key_of r) (upload_id_of r))
      pure (parts_response r listed)
