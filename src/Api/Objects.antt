-- ===== src/Api/Objects.antt =====
-- internal/api/object.go, rename.go and attributes.go: the handlers of one object.
use home_store.Prelude.{Option, none, some, List, [], ◌∷◌, ◌++◌}
use home_store.Prelude.Bytes.{Bytes, codes, trim_prefix}
use home_store.Storage.{ObjectMeta, Error, bucket_not_found, object_not_found}
use home_store.Os.Exec.{Result, ok, err, Fs, pure, attempt, ◌>>=◌}
use home_store.Os.Calls.{Reader}
use home_store.Backend.{Backend}
use home_store.Fs.Parts.{itoa}
use home_store.Http.{HttpRequest, HttpResponse, raw, header_get}
use home_store.Http.Escape.{path_unescape}
use home_store.S3.{internal_error, invalid_request, no_such_bucket, no_such_key}
use home_store.S3.Types.{copied, attributes}
use home_store.Api.Responses.{
  Library, xml_response, error_response, error_response_with_resource, bare, trim_slash, bucket_of,
  key_of, slash, request_meta, write_user_metadata, source_of,
}

module _ (lib : Library) where
  -- The answer to an error of the four handlers that name a resource: which resource a missing
  -- object and a missing bucket get, and the message of any other error.
  abbrev pub object_error : Bytes → Bytes → Bytes → Error → HttpResponse
  object_error object bucket message object_not_found =
      error_response_with_resource lib 404 no_such_key (codes "the specified key does not exist")
        object
  object_error object bucket message bucket_not_found =
      error_response_with_resource lib 404 no_such_bucket
        (codes "the specified bucket does not exist") (slash bucket)
  object_error object bucket message _ = error_response lib 500 internal_error message

  abbrev pub put_error : Bytes → Error → HttpResponse
  put_error bucket bucket_not_found =
      error_response_with_resource lib 404 no_such_bucket
        (codes "the specified bucket does not exist") (slash bucket)
  put_error bucket _ = error_response lib 500 internal_error (codes "failed to store object")

  abbrev pub put_response : Result ObjectMeta → HttpResponse
  put_response (ok stored) = bare 200 ((codes "ETag", stored.etag) ∷ [])
  put_response (err _) = bare 200 []

  -- The headers of an object.
  abbrev pub object_header : ObjectMeta → List (Bytes × Bytes)
  object_header meta =
      (codes "Content-Type", meta.content_type)
      ∷ (codes "Content-Length", itoa meta.content_length)
      ∷ (codes "ETag", meta.etag)
      ∷ (codes "Last-Modified", lib.http_time meta.last_modified)
      ∷ write_user_metadata meta.user_metadata

  abbrev pub get_response : HttpRequest → Result (Reader × ObjectMeta) → HttpResponse
  get_response r (ok (reader, meta)) = record {
    status = 200;
    header = object_header meta;
    body = raw reader.content;
  }
  get_response r (err e) = object_error r.path (bucket_of r) (codes "failed to retrieve object") e

  abbrev pub head_response : HttpRequest → Result ObjectMeta → HttpResponse
  head_response r (ok meta) = bare 200 (object_header meta)
  head_response r (err e) =
      object_error r.path (bucket_of r) (codes "failed to retrieve object metadata") e

  abbrev pub delete_response : HttpRequest → Result Unit → HttpResponse
  delete_response r (ok _) = bare 204 []
  delete_response r (err e) = object_error r.path (bucket_of r) (codes "failed to delete object") e

  abbrev pub copy_response : Bytes → Bytes → Result ObjectMeta → HttpResponse
  copy_response bucket key (ok meta) =
      xml_response 200
        (copied (record { etag = meta.etag; last_modified = lib.rfc3339 meta.last_modified }))
  copy_response bucket key (err e) =
      object_error (slash bucket ++ (codes "/" ++ key)) bucket (codes "failed to copy object") e

  abbrev pub rename_response : Result ObjectMeta → HttpResponse
  rename_response (ok meta) = bare 200 ((codes "ETag", meta.etag) ∷ [])
  rename_response (err bucket_not_found) =
      error_response lib 404 no_such_bucket (codes "bucket does not exist")
  rename_response (err object_not_found) =
      error_response lib 404 no_such_key (codes "the specified key does not exist")
  rename_response (err _) = error_response lib 500 internal_error (codes "failed to rename object")

  abbrev pub attributes_response : HttpRequest → Result ObjectMeta → HttpResponse
  attributes_response r (ok meta) = xml_response 200 (
      attributes (record {
        etag = meta.etag;
        object_size = meta.content_length;
        storage_class = codes "STANDARD";
      }))
  attributes_response r (err e) =
      object_error r.path (bucket_of r) (codes "failed to retrieve object attributes") e

  module _ (backend : Backend) where
    abbrev pub answer_put : HttpRequest → Result Unit → Fs HttpResponse
    answer_put r (err e) = pure (put_error (bucket_of r) e)
    answer_put r (ok _) = do
      stored ← attempt (backend.head_object (bucket_of r) (key_of r))
      pure (put_response stored)

    unfoldable pub handle_put_object : HttpRequest → Fs HttpResponse
    handle_put_object r = do
      stored ← attempt (backend.put_object (bucket_of r) (key_of r) r.body (request_meta r))
      answer_put r stored

    unfoldable pub handle_get_object : HttpRequest → Fs HttpResponse
    unfolding itoa
    handle_get_object r = do
      found ← attempt (backend.get_object (bucket_of r) (key_of r))
      pure (get_response r found)

    unfoldable pub handle_head_object : HttpRequest → Fs HttpResponse
    unfolding itoa
    handle_head_object r = do
      found ← attempt (backend.head_object (bucket_of r) (key_of r))
      pure (head_response r found)

    unfoldable pub handle_delete_object : HttpRequest → Fs HttpResponse
    handle_delete_object r = do
      deleted ← attempt (backend.delete_object (bucket_of r) (key_of r))
      pure (delete_response r deleted)

    abbrev pub copy_from : HttpRequest → Option (Bytes × Bytes) → Fs HttpResponse
    copy_from r none =
        pure (error_response lib 400 invalid_request (codes "invalid x-amz-copy-source header"))
    copy_from r (some (bucket, key)) = do
      meta ← attempt (backend.copy_object bucket key (bucket_of r) (key_of r))
      pure (copy_response bucket key meta)

    unfoldable pub handle_copy_object : HttpRequest → Fs HttpResponse
    unfolding header_get trim_prefix source_of
    handle_copy_object r =
        copy_from r (source_of (trim_slash (header_get (codes "x-amz-copy-source") r.header)))

    abbrev pub rename_from : HttpRequest → Option (Bytes × Bytes) → Fs HttpResponse
    rename_from r none =
        pure (error_response lib 400 invalid_request (codes "invalid x-amz-rename-source header"))
    rename_from r (some (bucket, key)) = do
      meta ← attempt (backend.rename_object bucket key (bucket_of r) (key_of r))
      pure (rename_response meta)

    -- A source that cannot be unescaped gets the same answer as one that cannot be cut.
    abbrev pub unescaped_source : Option Bytes → Option (Bytes × Bytes)
    unescaped_source none = none
    unescaped_source (some source) = source_of source

    unfoldable pub handle_rename_object : HttpRequest → Fs HttpResponse
    unfolding header_get trim_prefix source_of path_unescape
    handle_rename_object r = rename_from r (
        unescaped_source
          (path_unescape (trim_slash (header_get (codes "x-amz-rename-source") r.header))))

    unfoldable pub handle_get_object_attributes : HttpRequest → Fs HttpResponse
    handle_get_object_attributes r = do
      found ← attempt (backend.head_object (bucket_of r) (key_of r))
      pure (attributes_response r found)
