-- ===== src/Api/Runs/Deletes.antt =====
-- internal/api/list.go: the deletion of many objects by one request.
use home_store.Prelude.{
  ◌≡◌, ◌≤◌, arith, ltb, Bool, true, false, none, some, List, [], ◌∷◌, map, length, All,
  if◌then◌else◌,
}
use home_store.Prelude.Bytes.{Bytes, codes}
use home_store.Storage.Names.{is_valid_bucket_name}
use home_store.Os.Disk.{Disk}
use home_store.Os.Exec.{ok, pure}
use home_store.Os.Calls.{Env}
use home_store.Os.Calm.{Gives, Gives-pure, Gives-attempt, Gives-bind}
use home_store.Http.{post, HttpRequest, query_has}
use home_store.Fs.Runs.Put.{bucket_exists-Gives}
use home_store.Api.Handler.{route_request}
use home_store.Api.Runs.{Gives-reply, valid-lacks}
use home_store.Api.Runs.Buckets.{
  IsForBucket, route-IsForBucket, whole_bucket-IsForBucket, valid-ne-nil,
}
use home_store.S3.Types.{ObjectIdentifier, DeletedObject, deleted}
use home_store.Fs.Implements.{fs_backend}
use home_store.Fs.Abstract.{Store, set}
use home_store.Fs.Abstract.Refines.{Refines, AreApart, delete_object-Refines}
use home_store.Api.Responses.{Library, xml_response}
use home_store.Api.Lists.{delete_each, delete_objects_response, handle_delete_objects}

not_more : (os : List ObjectIdentifier) → length os ≤ 1000 → ltb 1000 (length os) ≡ false
not_more os h = ground arith

-- The store without the objects.
unfoldable pub unset_all : List ObjectIdentifier → Store → Store
unfolding set
unset_all [] s = s
unset_all (o ∷ os) s = unset_all os (set o.key none s)

-- What the answer lists.
abbrev pub reported : Bool → List ObjectIdentifier → List DeletedObject
reported true os = []
reported false os = map (λ o. record { key = o.key }) os

module _ (env : Env) (sized : (k : Bytes) → length (env.sha256 k) ≡ 32) (b : Bytes)
    (valid : is_valid_bucket_name b ≡ true) (K : Bytes → Type 0) (apart : AreApart env K)
    (lib : Library) where
  -- The loop deletes what it is given, and reports it unless it is quiet.
  pub delete_each-Refines :
      (quiet : Bool) (os : List ObjectIdentifier)
      → All (λ o. K o.key) os
      → (s : Store) (d : Disk) → Refines env b K s d
      → (d' : Disk) × Gives
          (delete_each lib (fs_backend env) b quiet os)
          d
          (ok (reported quiet os))
          d'
        × Refines env b K (unset_all os s) d'
  unfolding delete_each unset_all
  delete_each-Refines true [] h s d r = (d, Gives-pure [] d, r)
  delete_each-Refines false [] h s d r = (d, Gives-pure [] d, r)
  delete_each-Refines quiet (o ∷ os) h s d r =
      let (d', g, r') = delete_object-Refines env sized b valid K apart s d r o.key h.0 in
      let (d'', gs, r'') = delete_each-Refines quiet os h.1 (set o.key none s) d' r' in
      (d'', Gives-bind _ g (Gives-bind _ gs (listed quiet d'')), r'')
    where
      listed :
          (quiet : Bool) (d : Disk)
          → Gives
              (pure
                (if quiet then reported quiet os else record { key = o.key } ∷ reported quiet os))
              d
              (ok (reported quiet (o ∷ os)))
              d
      listed true d = Gives-pure [] d
      listed false d = Gives-pure _ d

  -- In a bucket with a valid name, on a tree that refines a store by key and where no call fails
  -- for an outside reason, a POST with `delete` in its query whose body is read as at most 1000
  -- keys answers 200, lists all of them in their order, or none if the request is quiet, and leaves
  -- a tree that refines the store without them, whether they were there or not. A SHA-256 sum has
  -- 32 bytes.
  pub delete_request-Refines :
      (r : HttpRequest)
      → IsForBucket b post r
      → query_has (codes "delete") r.query ≡ true
      → (quiet : Bool) (os : List ObjectIdentifier)
      → lib.decode_delete r.body ≡ some (record { quiet = quiet; objects = os })
      → length os ≤ 1000
      → All (λ o. K o.key) os
      → (s : Store) (d : Disk) → Refines env b K s d
      → (d' : Disk) × Gives
          (route_request lib (fs_backend env) r)
          d
          (ok (xml_response 200 (deleted (record { deleted = reported quiet os }))))
          d'
        × Refines env b K (unset_all os s) d'
  unfolding route_request handle_delete_objects
  delete_request-Refines r h query quiet os e few keys s d rf =
      let (d', g, rf') = delete_each-Refines quiet os keys s d rf in
      let name = valid-ne-nil b valid in
      (
        d',
        rw
            (
              route-IsForBucket b (valid-lacks b valid) name r h,
              query,
              e,
              whole_bucket-IsForBucket b (valid-lacks b valid) name r h,
              not_more os few,
            )
            (Gives-bind _ (Gives-attempt (bucket_exists-Gives b valid d rf.in_bucket))
              (Gives-reply (delete_objects_response lib) g)),
        rf',
      )
