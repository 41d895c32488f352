-- ===== src/Api/Serves/Objects.antt =====
-- internal/api/object.go, rename.go and attributes.go: the handlers answer and keep.
use home_store.Prelude.{◌≡◌, refl, Option, none, some}
use home_store.Prelude.Bytes.{Bytes, codes}
use home_store.Storage.{ObjectMeta, Error, bucket_not_found, object_not_found}
use home_store.Os.Disk.{Disk}
use home_store.Os.Exec.{Result, ok, err}
use home_store.Os.Calls.{Reader}
use home_store.Backend.{Backend}
use home_store.Http.{HttpRequest, header_get}
use home_store.Http.Escape.{path_unescape}
use home_store.Api.Responses.{Library, trim_slash}
use home_store.Api.Parse.{bucket_of-IsBare, source_of-IsBare}
use home_store.Api.Objects.{
  object_error, put_error, put_response, get_response, head_response, delete_response,
  copy_response, rename_response, attributes_response, answer_put, copy_from, rename_from,
  unescaped_source, handle_put_object, handle_get_object, handle_head_object, handle_delete_object,
  handle_copy_object, handle_rename_object, handle_get_object_attributes,
}
use home_store.Api.Serves.{HasStatus, Serves, Serves-pure, Serves-attempt, Serves-reply}
use home_store.Backend.Keeps.{KeepsReads, KeepsWrites, IsBare}

module _ (lib : Library) where
  object_error-HasStatus : (o b m : Bytes) (e : Error) → HasStatus (object_error lib o b m e)
  object_error-HasStatus o b m object_not_found = refl
  object_error-HasStatus o b m bucket_not_found = refl
  object_error-HasStatus o b m _ = refl

  put_error-HasStatus : (b : Bytes) (e : Error) → HasStatus (put_error lib b e)
  put_error-HasStatus b bucket_not_found = refl
  put_error-HasStatus b _ = refl

  put-HasStatus : (x : Result ObjectMeta) → HasStatus (put_response lib x)
  put-HasStatus (ok m) = refl
  put-HasStatus (err e) = refl

  get-HasStatus :
      (r : HttpRequest) (x : Result (Reader × ObjectMeta)) → HasStatus (get_response lib r x)
  get-HasStatus r (ok (b, m)) = refl
  get-HasStatus r (err e) = object_error-HasStatus _ _ _ e

  head-HasStatus : (r : HttpRequest) (x : Result ObjectMeta) → HasStatus (head_response lib r x)
  head-HasStatus r (ok m) = refl
  head-HasStatus r (err e) = object_error-HasStatus _ _ _ e

  delete-HasStatus : (r : HttpRequest) (x : Result Unit) → HasStatus (delete_response lib r x)
  delete-HasStatus r (ok t) = refl
  delete-HasStatus r (err e) = object_error-HasStatus _ _ _ e

  copy-HasStatus : (b k : Bytes) (x : Result ObjectMeta) → HasStatus (copy_response lib b k x)
  copy-HasStatus b k (ok m) = refl
  copy-HasStatus b k (err e) = object_error-HasStatus _ _ _ e

  rename-HasStatus : (x : Result ObjectMeta) → HasStatus (rename_response lib x)
  rename-HasStatus (ok m) = refl
  rename-HasStatus (err bucket_not_found) = refl
  rename-HasStatus (err object_not_found) = refl
  rename-HasStatus (err _) = refl

  attributes-HasStatus :
      (r : HttpRequest) (x : Result ObjectMeta) → HasStatus (attributes_response lib r x)
  attributes-HasStatus r (ok m) = refl
  attributes-HasStatus r (err e) = object_error-HasStatus _ _ _ e

  module _ {P : Disk → Type 0} (backend : Backend) where
    pub handle_get_object-Serves :
        KeepsReads P backend → (r : HttpRequest) → Serves P (handle_get_object lib backend r)
    unfolding handle_get_object
    handle_get_object-Serves k r = Serves-reply _ _ (k.get_object _ _) (get-HasStatus r)

    pub handle_head_object-Serves :
        KeepsReads P backend → (r : HttpRequest) → Serves P (handle_head_object lib backend r)
    unfolding handle_head_object
    handle_head_object-Serves k r = Serves-reply _ _ (k.head_object _ _) (head-HasStatus r)

    pub handle_get_object_attributes-Serves :
        KeepsReads P backend
        → (r : HttpRequest) → Serves P (handle_get_object_attributes lib backend r)
    unfolding handle_get_object_attributes
    handle_get_object_attributes-Serves k r =
        Serves-reply _ _ (k.head_object _ _) (attributes-HasStatus r)

    module _ (reads : KeepsReads P backend) (writes : KeepsWrites P backend) where
      answer_put-Serves :
          (r : HttpRequest) (x : Result Unit) → Serves P (answer_put lib backend r x)
      answer_put-Serves r (ok t) = Serves-reply _ _ (reads.head_object _ _) put-HasStatus
      answer_put-Serves r (err e) = Serves-pure _ (put_error-HasStatus _ e)

      pub handle_put_object-Serves : (r : HttpRequest) → Serves P (handle_put_object lib backend r)
      unfolding handle_put_object
      handle_put_object-Serves r =
          Serves-attempt _ _ (writes.put_object _ _ _ _ (bucket_of-IsBare r)) (answer_put-Serves r)

      pub handle_delete_object-Serves :
          (r : HttpRequest) → Serves P (handle_delete_object lib backend r)
      unfolding handle_delete_object
      handle_delete_object-Serves r =
          Serves-reply _ _ (writes.delete_object _ _ (bucket_of-IsBare r)) (delete-HasStatus r)

      copy_from-Serves :
          (r : HttpRequest) (o : Option (Bytes × Bytes)) → Serves P (copy_from lib backend r o)
      copy_from-Serves r none = Serves-pure _ refl
      copy_from-Serves r (some (b, k)) =
          Serves-reply _ _ (writes.copy_object _ _ _ _ (bucket_of-IsBare r)) (copy-HasStatus b k)

      pub handle_copy_object-Serves :
          (r : HttpRequest) → Serves P (handle_copy_object lib backend r)
      unfolding handle_copy_object
      handle_copy_object-Serves r = copy_from-Serves r _

      rename_from-Serves :
          (r : HttpRequest) (o : Option (Bytes × Bytes))
          → ((b k : Bytes) → o ≡ some (b, k) → IsBare b)
          → Serves P (rename_from lib backend r o)
      rename_from-Serves r none h = Serves-pure _ refl
      rename_from-Serves r (some (b, k)) h =
          Serves-reply _ _ (writes.rename_object _ _ _ _ (h b k refl) (bucket_of-IsBare r))
            rename-HasStatus

      unescaped-IsBare :
          (s : Option Bytes) (b k : Bytes) → unescaped_source lib backend s ≡ some (b, k) → IsBare b
      unescaped-IsBare none b k e = cc
      unescaped-IsBare (some s) b k e = source_of-IsBare s b k e

      abbrev rename_source : HttpRequest → Option Bytes
      rename_source r =
          path_unescape (trim_slash (header_get (codes "x-amz-rename-source") r.header))

      pub handle_rename_object-Serves :
          (r : HttpRequest) → Serves P (handle_rename_object lib backend r)
      unfolding handle_rename_object
      handle_rename_object-Serves r =
          rename_from-Serves r (unescaped_source lib backend (rename_source r))
            (unescaped-IsBare (rename_source r))
