-- ===== src/Api/Buckets.antt =====
-- internal/api/bucket.go: the handlers of one bucket and of the list of buckets.
use home_store.Prelude.{Bool, true, false, not, List, [], ◌∷◌, map, if◌then◌else◌}
use home_store.Prelude.Bytes.{Bytes, codes, bytes_eq}
use home_store.Storage.{
  BucketInfo, bucket_not_found, bucket_exists as exists_error, bucket_not_empty as not_empty_error,
}
use home_store.Storage.Names.{is_valid_bucket_name}
use home_store.Os.Exec.{Result, ok, err, Fs, pure, attempt, ◌>>=◌}
use home_store.Backend.{Backend}
use home_store.Http.{HttpRequest, HttpResponse}
use home_store.S3.{
  internal_error, invalid_request, invalid_bucket_name, no_such_bucket, bucket_already_exists,
  bucket_not_empty,
}
use home_store.S3.Types.{Bucket, all_buckets}
use home_store.Api.Responses.{Library, xml_response, error_response, bare, whole_bucket, slash}

module _ (lib : Library) where
  abbrev pub bucket_entry : BucketInfo → Bucket
  bucket_entry b = record { name = b.name; creation_date = lib.rfc3339 b.created_at }

  abbrev pub buckets_response : Result (List BucketInfo) → HttpResponse
  buckets_response (err e) = error_response lib 500 internal_error (codes "failed to list buckets")
  buckets_response (ok buckets) = xml_response 200 (
      all_buckets (record {
        owner = record { id = codes "homestore"; display_name = codes "HomeStore" };
        buckets = map bucket_entry buckets;
      }))

  -- The two tests at the start of the handlers of one bucket, before `act`.
  unfoldable pub with_bucket : Bytes → Fs HttpResponse → Fs HttpResponse
  unfolding bytes_eq
  with_bucket bucket act =
      if bytes_eq bucket []
      then pure (error_response lib 400 invalid_request (codes "bucket name is required"))
      else if not (is_valid_bucket_name bucket)
      then pure (error_response lib 400 invalid_bucket_name (codes "invalid bucket name"))
      else act

  abbrev pub created_response : Bytes → Result Unit → HttpResponse
  created_response bucket (ok _) = bare 200 ((codes "Location", slash bucket) ∷ [])
  created_response bucket (err exists_error) =
      error_response lib 409 bucket_already_exists (codes "bucket already exists")
  created_response bucket (err _) =
      error_response lib 500 internal_error (codes "failed to create bucket")

  abbrev pub deleted_response : Result Unit → HttpResponse
  deleted_response (ok _) = bare 204 []
  deleted_response (err bucket_not_found) =
      error_response lib 404 no_such_bucket (codes "bucket does not exist")
  deleted_response (err not_empty_error) =
      error_response lib 409 bucket_not_empty (codes "the bucket you tried to delete is not empty")
  deleted_response (err _) = error_response lib 500 internal_error (codes "failed to delete bucket")

  abbrev pub existence_response : Result Bool → HttpResponse
  existence_response (ok true) = bare 200 []
  existence_response (ok false) =
      error_response lib 404 no_such_bucket (codes "bucket does not exist")
  existence_response (err _) =
      error_response lib 500 internal_error (codes "failed to check bucket")

  module _ (backend : Backend) where
    unfoldable pub handle_list_buckets : HttpRequest → Fs HttpResponse
    handle_list_buckets r = do listed ← attempt backend.list_buckets; pure (buckets_response listed)

    unfoldable pub handle_create_bucket : HttpRequest → Fs HttpResponse
    unfolding with_bucket
    handle_create_bucket r = with_bucket (whole_bucket r) (do
      created ← attempt (backend.create_bucket (whole_bucket r))
      pure (created_response (whole_bucket r) created))

    unfoldable pub handle_delete_bucket : HttpRequest → Fs HttpResponse
    unfolding with_bucket
    handle_delete_bucket r = with_bucket (whole_bucket r) (do
      deleted ← attempt (backend.delete_bucket (whole_bucket r))
      pure (deleted_response deleted))

    unfoldable pub handle_head_bucket : HttpRequest → Fs HttpResponse
    unfolding with_bucket
    handle_head_bucket r = with_bucket (whole_bucket r) (do
      exists ← attempt (backend.bucket_exists (whole_bucket r))
      pure (existence_response exists))
