-- ===== src/Api/Serves/Buckets.antt =====
-- internal/api/bucket.go: the handlers answer and keep.
use home_store.Prelude.{◌≡◌, refl, Bool, true, false, Bool-cases, inl, inr, List, []}
use home_store.Prelude.Bytes.{Bytes, bytes_eq}
use home_store.Storage.{BucketInfo, bucket_not_found, bucket_exists as exists_error}
use home_store.Storage.Names.{is_valid_bucket_name}
use home_store.Os.Disk.{Disk}
use home_store.Os.Exec.{Result, ok, err, Fs}
use home_store.Backend.{Backend}
use home_store.Http.{HttpRequest, HttpResponse}
use home_store.Api.Responses.{Library, whole_bucket}
use home_store.Api.Buckets.{
  buckets_response, created_response, deleted_response, existence_response, with_bucket,
  handle_list_buckets, handle_create_bucket, handle_delete_bucket, handle_head_bucket,
}
use home_store.Api.Serves.{HasStatus, Serves, Serves-pure, Serves-if, Serves-reply}
use home_store.Backend.Keeps.{KeepsReads, KeepsWrites}

module _ (lib : Library) where
  buckets-HasStatus : (x : Result (List BucketInfo)) → HasStatus (buckets_response lib x)
  buckets-HasStatus (ok bs) = refl
  buckets-HasStatus (err e) = refl

  created-HasStatus : (b : Bytes) (x : Result Unit) → HasStatus (created_response lib b x)
  created-HasStatus b (ok t) = refl
  created-HasStatus b (err exists_error) = refl
  created-HasStatus b (err _) = refl

  deleted-HasStatus : (x : Result Unit) → HasStatus (deleted_response lib x)
  deleted-HasStatus (ok t) = refl
  deleted-HasStatus (err bucket_not_found) = refl
  deleted-HasStatus (err _) = refl

  existence-HasStatus : (x : Result Bool) → HasStatus (existence_response lib x)
  existence-HasStatus (ok true) = refl
  existence-HasStatus (ok false) = refl
  existence-HasStatus (err e) = refl

  module _ {P : Disk → Type 0} (backend : Backend) where
    with_bucket-Serves :
        (b : Bytes) (act : Fs HttpResponse)
        → (is_valid_bucket_name b ≡ true → Serves P act)
        → Serves P (with_bucket lib b act)
    unfolding with_bucket
    with_bucket-Serves b act s =
        Serves-if (bytes_eq b []) _ _ (λ _. Serves-pure _ refl)
          (λ _. elim (Bool-cases (is_valid_bucket_name b)) [
            | inl e ↦ rw e (s e)
            | inr e ↦ rw e (Serves-pure _ refl)
          ])

    pub handle_list_buckets-Serves :
        KeepsReads P backend → (r : HttpRequest) → Serves P (handle_list_buckets lib backend r)
    unfolding handle_list_buckets
    handle_list_buckets-Serves k r = Serves-reply _ _ k.list_buckets buckets-HasStatus

    pub handle_create_bucket-Serves :
        KeepsWrites P backend → (r : HttpRequest) → Serves P (handle_create_bucket lib backend r)
    unfolding handle_create_bucket
    handle_create_bucket-Serves k r =
        with_bucket-Serves (whole_bucket r) _
          (λ v. Serves-reply _ _ (k.create_bucket _ v) (created-HasStatus _))

    pub handle_delete_bucket-Serves :
        KeepsWrites P backend → (r : HttpRequest) → Serves P (handle_delete_bucket lib backend r)
    unfolding handle_delete_bucket
    handle_delete_bucket-Serves k r =
        with_bucket-Serves (whole_bucket r) _
          (λ v. Serves-reply _ _ (k.delete_bucket _ v) deleted-HasStatus)

    pub handle_head_bucket-Serves :
        KeepsReads P backend → (r : HttpRequest) → Serves P (handle_head_bucket lib backend r)
    unfolding handle_head_bucket
    handle_head_bucket-Serves k r =
        with_bucket-Serves (whole_bucket r) _
          (λ v. Serves-reply _ _ (k.bucket_exists _) existence-HasStatus)
