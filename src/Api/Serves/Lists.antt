-- ===== src/Api/Serves/Lists.antt =====
-- internal/api/list.go: the handlers answer and keep.
use home_store.Prelude.{refl, ltb, Bool, true, false, Option, none, some, List, [], ◌∷◌, length}
use home_store.Prelude.Bytes.{Bytes}
use home_store.Storage.{ListResult, Error, bucket_not_found}
use home_store.Os.Disk.{Disk}
use home_store.Os.Exec.{Result, ok, err}
use home_store.Os.Stable.{Always, Keeps, Keeps-pure, Keeps-bind}
use home_store.Backend.{Backend}
use home_store.Http.{HttpRequest}
use home_store.S3.Types.{ObjectIdentifier, DeletedObject, DeleteObjectsRequest}
use home_store.Api.Responses.{Library, whole_bucket}
use home_store.Api.Lists.{
  list_error, location_response, objects_response, objects_v2_response, delete_objects_response,
  handle_get_bucket_location, handle_list_objects, list_from, handle_list_objects_v2, delete_each,
  delete_in, delete_decoded, handle_delete_objects,
}
use home_store.Api.Serves.{HasStatus, Serves, Serves-pure, Serves-attempt, Serves-if, Serves-reply}
use home_store.Backend.Keeps.{KeepsReads, KeepsWrites, IsBare}

module _ (lib : Library) where
  list_error-HasStatus : (e : Error) → HasStatus (list_error lib e)
  list_error-HasStatus bucket_not_found = refl
  list_error-HasStatus _ = refl

  location-HasStatus : (x : Result Bytes) → HasStatus (location_response lib x)
  location-HasStatus (ok l) = refl
  location-HasStatus (err bucket_not_found) = refl
  location-HasStatus (err _) = refl

  objects-HasStatus :
      (r : HttpRequest) (x : Result ListResult) → HasStatus (objects_response lib r x)
  objects-HasStatus r (ok l) = refl
  objects-HasStatus r (err e) = list_error-HasStatus e

  objects_v2-HasStatus :
      (r : HttpRequest) (x : Result ListResult) → HasStatus (objects_v2_response lib r x)
  objects_v2-HasStatus r (ok l) = refl
  objects_v2-HasStatus r (err e) = list_error-HasStatus e

  deleted-HasStatus : (x : Result (List DeletedObject)) → HasStatus (delete_objects_response lib x)
  deleted-HasStatus (ok l) = refl
  deleted-HasStatus (err e) = refl

  module _ {P : Disk → Type 0} (backend : Backend) (reads : KeepsReads P backend) where
    pub handle_get_bucket_location-Serves :
        (r : HttpRequest) → Serves P (handle_get_bucket_location lib backend r)
    unfolding handle_get_bucket_location
    handle_get_bucket_location-Serves r =
        Serves-reply _ _ (reads.get_bucket_location _) location-HasStatus

    pub handle_list_objects-Serves :
        (r : HttpRequest) → Serves P (handle_list_objects lib backend r)
    unfolding handle_list_objects
    handle_list_objects-Serves r = Serves-reply _ _ (reads.list_objects _ _) (objects-HasStatus r)

    list_from-Serves : (r : HttpRequest) (o : Option Bytes) → Serves P (list_from lib backend r o)
    list_from-Serves r none = Serves-pure _ refl
    list_from-Serves r (some m) = Serves-reply _ _ (reads.list_objects _ _) (objects_v2-HasStatus r)

    pub handle_list_objects_v2-Serves :
        (r : HttpRequest) → Serves P (handle_list_objects_v2 lib backend r)
    unfolding handle_list_objects_v2
    handle_list_objects_v2-Serves r = list_from-Serves r _

    module _ (writes : KeepsWrites P backend) (b : Bytes) (bare : IsBare b) where
      delete_each-Keeps :
          (quiet : Bool) (os : List ObjectIdentifier)
          → Keeps P Always (delete_each lib backend b quiet os)
      unfolding delete_each
      delete_each-Keeps quiet [] = Keeps-pure Always _ tt
      delete_each-Keeps quiet (o ∷ os) =
          Keeps-bind _ _ (writes.delete_object b o.key bare)
            (λ _ _. Keeps-bind _ _ (delete_each-Keeps quiet os) (λ _ _. Keeps-pure Always _ tt))

      delete_in-Serves :
          (q : DeleteObjectsRequest) (x : Result Bool) → Serves P (delete_in lib backend b q x)
      delete_in-Serves q (err e) = Serves-pure _ refl
      delete_in-Serves q (ok false) = Serves-pure _ refl
      delete_in-Serves q (ok true) =
          Serves-reply _ _ (delete_each-Keeps q.quiet q.objects) deleted-HasStatus

      delete_decoded-Serves :
          (o : Option DeleteObjectsRequest) → Serves P (delete_decoded lib backend b o)
      delete_decoded-Serves none = Serves-pure _ refl
      delete_decoded-Serves (some q) =
          Serves-if (ltb 1000 (length q.objects)) _ _ (λ _. Serves-pure _ refl)
            (λ _. Serves-attempt _ _ (reads.bucket_exists b) (delete_in-Serves q))

    pub handle_delete_objects-Serves :
        KeepsWrites P backend
        → (r : HttpRequest) → IsBare (whole_bucket r)
        → Serves P (handle_delete_objects lib backend r)
    unfolding handle_delete_objects
    handle_delete_objects-Serves writes r bare =
        delete_decoded-Serves writes (whole_bucket r) bare (lib.decode_delete r.body)
