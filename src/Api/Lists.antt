-- ===== src/Api/Lists.antt =====
-- internal/api/list.go: the handlers that list objects and that delete many.
use home_store.Prelude.{
  ℕ, ◌+◌, ltb, Bool, true, false, Option, none, some, List, [], ◌∷◌, map, length, if◌then◌else◌,
}
use home_store.Prelude.Bytes.{Bytes, codes, bytes_eq}
use home_store.Storage.{ListOptions, ListResult, ObjectInfo, Error, bucket_not_found}
use home_store.Os.Exec.{Result, ok, err, Fs, pure, attempt, ◌>>=◌, ◌>>◌}
use home_store.Backend.{Backend}
use home_store.Http.{HttpRequest, HttpResponse, query_get}
use home_store.Http.Numbers.{ℤ, pos, negsuc, atoi}
use home_store.Http.Base64.{encode, decode}
use home_store.S3.{internal_error, invalid_request, no_such_bucket}
use home_store.S3.Types.{
  Object, CommonPrefix, ObjectIdentifier, DeletedObject, DeleteObjectsRequest, location, objects,
  objects_v2, deleted,
}
use home_store.Api.Responses.{Library, xml_response, error_response, whole_bucket}

abbrev pub capped : Option ℤ → ℕ
capped none = 1000
capped (some (negsuc n)) = 1000
capped (some (pos n)) = if ltb 1000 n then 1000 else n

unfoldable pub parsed_max_keys : Bytes → ℕ
unfolding bytes_eq atoi
parsed_max_keys value = if bytes_eq value [] then 1000 else capped (atoi value)

abbrev pub list_options : Bytes → Bytes → Bytes → Bytes → ListOptions
list_options prefix delimiter marker max_keys = record {
  prefix = prefix;
  delimiter = delimiter;
  marker = marker;
  max_keys = parsed_max_keys max_keys;
}

abbrev pub common_prefixes : List Bytes → List CommonPrefix
common_prefixes prefixes = map (λ p. record { prefix = p }) prefixes

-- The options of a request whose marker is known.
abbrev pub options_from : HttpRequest → Bytes → ListOptions
options_from r marker =
    list_options (query_get (codes "prefix") r.query) (query_get (codes "delimiter") r.query) marker
      (query_get (codes "max-keys") r.query)

-- The marker of a request of version 2; `none` for a token that is no base64.
abbrev pub marker_of : HttpRequest → Option Bytes
marker_of r =
    let token = query_get (codes "continuation-token") r.query in
    if bytes_eq token [] then some (query_get (codes "start-after") r.query) else decode token

-- The token of the next page.
abbrev pub next_token_of : ListResult → Bytes
next_token_of l = if l.is_truncated then encode l.next_marker else []

module _ (lib : Library) where
  abbrev pub object_list : List ObjectInfo → List Object
  object_list infos =
      map
        (λ o. record {
          key = o.key;
          last_modified = lib.list_time o.last_modified;
          etag = o.etag;
          size = o.size;
          storage_class = codes "STANDARD";
        })
        infos

  abbrev pub list_error : Error → HttpResponse
  list_error bucket_not_found =
      error_response lib 404 no_such_bucket (codes "bucket does not exist")
  list_error _ = error_response lib 500 internal_error (codes "failed to list objects")

  abbrev pub location_response : Result Bytes → HttpResponse
  location_response (ok region) = xml_response 200 (location region)
  location_response (err bucket_not_found) =
      error_response lib 404 no_such_bucket (codes "bucket does not exist")
  location_response (err _) =
      error_response lib 500 internal_error (codes "failed to get bucket location")

  abbrev pub objects_response : HttpRequest → Result ListResult → HttpResponse
  objects_response r (err e) = list_error e
  objects_response r (ok l) = xml_response 200 (
      objects (record {
        name = whole_bucket r;
        prefix = query_get (codes "prefix") r.query;
        marker = query_get (codes "marker") r.query;
        next_marker = l.next_marker;
        delimiter = query_get (codes "delimiter") r.query;
        max_keys = parsed_max_keys (query_get (codes "max-keys") r.query);
        is_truncated = l.is_truncated;
        contents = object_list l.objects;
        common_prefixes = common_prefixes l.common_prefixes;
      }))

  abbrev pub objects_v2_response : HttpRequest → Result ListResult → HttpResponse
  objects_v2_response r (err e) = list_error e
  objects_v2_response r (ok l) = xml_response 200 (
      objects_v2 (record {
        name = whole_bucket r;
        prefix = query_get (codes "prefix") r.query;
        max_keys = parsed_max_keys (query_get (codes "max-keys") r.query);
        is_truncated = l.is_truncated;
        contents = object_list l.objects;
        common_prefixes = common_prefixes l.common_prefixes;
        continuation_token = query_get (codes "continuation-token") r.query;
        next_token = next_token_of l;
        key_count = length l.objects + length l.common_prefixes;
      }))

  abbrev pub delete_objects_response : Result (List DeletedObject) → HttpResponse
  delete_objects_response (ok done) = xml_response 200 (deleted (record { deleted = done }))
  delete_objects_response (err _) =
      error_response lib 500 internal_error (codes "failed to delete object")

  module _ (backend : Backend) where
    unfoldable pub handle_get_bucket_location : HttpRequest → Fs HttpResponse
    handle_get_bucket_location r = do
      region ← attempt (backend.get_bucket_location (whole_bucket r))
      pure (location_response region)

    unfoldable pub handle_list_objects : HttpRequest → Fs HttpResponse
    unfolding query_get parsed_max_keys
    handle_list_objects r = do
      listed ← attempt (
          backend.list_objects (whole_bucket r)
            (options_from r (query_get (codes "marker") r.query)))
      pure (objects_response r listed)

    abbrev pub list_from : HttpRequest → Option Bytes → Fs HttpResponse
    list_from r none =
        pure (error_response lib 400 invalid_request (codes "invalid continuation token"))
    list_from r (some marker) = do
      listed ← attempt (backend.list_objects (whole_bucket r) (options_from r marker))
      pure (objects_v2_response r listed)

    unfoldable pub handle_list_objects_v2 : HttpRequest → Fs HttpResponse
    unfolding query_get parsed_max_keys
    handle_list_objects_v2 r = list_from r (marker_of r)

    -- The loop over the objects of the request; the first failure ends it.
    unfoldable pub delete_each : Bytes → Bool → List ObjectIdentifier → Fs (List DeletedObject)
    delete_each bucket quiet [] = pure []
    delete_each bucket quiet (o ∷ os) = do
      backend.delete_object bucket o.key
      rest ← delete_each bucket quiet os
      pure (if quiet then rest else record { key = o.key } ∷ rest)

    abbrev pub delete_in : Bytes → DeleteObjectsRequest → Result Bool → Fs HttpResponse
    delete_in bucket request (err _) =
        pure (error_response lib 500 internal_error (codes "failed to check bucket"))
    delete_in bucket request (ok false) =
        pure (error_response lib 404 no_such_bucket (codes "bucket does not exist"))
    delete_in bucket request (ok true) = do
      done ← attempt (delete_each bucket request.quiet request.objects)
      pure (delete_objects_response done)

    abbrev pub delete_decoded : Bytes → Option DeleteObjectsRequest → Fs HttpResponse
    delete_decoded bucket none =
        pure (error_response lib 400 invalid_request (codes "invalid delete request"))
    delete_decoded bucket (some request) =
        if ltb 1000 (length request.objects)
        then pure (
            error_response lib 400 invalid_request
              (codes "a delete request may contain at most 1000 objects"))
        else do exists ← attempt (backend.bucket_exists bucket); delete_in bucket request exists

    unfoldable pub handle_delete_objects : HttpRequest → Fs HttpResponse
    unfolding delete_each
    handle_delete_objects r = delete_decoded (whole_bucket r) (lib.decode_delete r.body)
