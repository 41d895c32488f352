-- ===== src/Api/Runs/Objects.antt =====
-- PUT, GET, HEAD and DELETE of an object, as requests to the server.
use home_store.Prelude.{subst, ◌≡◌, true, none, [], length}
use home_store.Prelude.Bytes.{Bytes, codes}
use home_store.Storage.{ObjectMeta, ListOptions, bucket_not_found}
use home_store.Storage.Names.{is_valid_bucket_name}
use home_store.Os.Disk.{Disk, Content, raw, lookup, erase}
use home_store.Os.Exec.{Fs, Result, ok, err, ◌>>◌}
use home_store.Os.Calls.{Env, Reader}
use home_store.Os.Layout.{HasLayout}
use home_store.Os.Calm.{Gives, Gives-pure, Gives-attempt, Gives-bind}
use home_store.Http.{get, put, delete, head, HttpRequest, HttpResponse}
use home_store.S3.{no_such_key, no_such_bucket}
use home_store.Fs.Paths.{bucket_metadata_path, object_path, metadata_path}
use home_store.Fs.Runs.Places.{lookup-erase_self}
use home_store.Fs.Implements.{fs_backend}
use home_store.Fs.Objects.{put_object, get_object, head_object, delete_object}
use home_store.Fs.Touches.Objects.{temp_path}
use home_store.Fs.Runs.Put.{HasBucket, put_object-Gives}
use home_store.Fs.Runs.RoundTrip.{
  HasObject, read_back, after, after-HasObject, head_object-Gives, get_object-Gives,
  delete_object-Gives, without, without-HasBucket, get_object-missing, head_object-missing,
}
use home_store.Fs.Runs.Missing.{Refuses, object_operations-missing}
use home_store.Api.Responses.{Library, bare, error_response_with_resource, request_meta, slash}
use home_store.Api.Objects.{
  object_header, put_response, get_response, head_response, delete_response, answer_put,
  handle_put_object, handle_get_object, handle_head_object, handle_delete_object,
}
use home_store.Api.Handler.{route_request}
use home_store.Api.Runs.{
  IsFor, object_url, whole_object, Gives-reply, bucket_of-IsFor, key_of-IsFor, route-put, route-get,
  route-head, route-delete,
}

-- The answers where the object, or its bucket, is missing.
abbrev pub missing_at : Library → Bytes → HttpResponse
missing_at lib path =
    error_response_with_resource lib 404 no_such_key (codes "the specified key does not exist") path

abbrev pub no_bucket_at : Library → Bytes → HttpResponse
no_bucket_at lib b =
    error_response_with_resource lib 404 no_such_bucket
      (codes "the specified bucket does not exist") (slash b)

module _ (env : Env) (b k : Bytes) (valid : is_valid_bucket_name b ≡ true) (lib : Library)
    (r : HttpRequest) where
  -- Each request, by what its operation gives.
  pub get-Gives :
      {d d' : Disk} {x : Result (Reader × ObjectMeta)}
      → IsFor b k get r
      → Gives (get_object env b k) d x d'
      → Gives (route_request lib (fs_backend env) r) d (ok (get_response lib r x)) d'
  unfolding route_request handle_get_object
  get-Gives h g = rw (route-get b k valid r h) (
      Gives-reply (get_response lib r)
        (rw (bucket_of-IsFor b k valid r h, key_of-IsFor b k valid r h) g))

  pub head-Gives :
      {d d' : Disk} {x : Result ObjectMeta}
      → IsFor b k head r
      → Gives (head_object env b k) d x d'
      → Gives (route_request lib (fs_backend env) r) d (ok (head_response lib r x)) d'
  unfolding route_request handle_head_object
  head-Gives h g = rw (route-head b k valid r h) (
      Gives-reply (head_response lib r)
        (rw (bucket_of-IsFor b k valid r h, key_of-IsFor b k valid r h) g))

  pub delete-Gives :
      {d d' : Disk} {x : Result Unit}
      → IsFor b k delete r
      → Gives (delete_object env b k) d x d'
      → Gives (route_request lib (fs_backend env) r) d (ok (delete_response lib r x)) d'
  unfolding route_request handle_delete_object
  delete-Gives h g = rw (route-delete b k valid r h) (
      Gives-reply (delete_response lib r)
        (rw (bucket_of-IsFor b k valid r h, key_of-IsFor b k valid r h) g))

  pub put-Gives :
      {d d' : Disk} {m : ObjectMeta}
      → IsFor b k put r
      → Gives (put_object env b k r.body (request_meta r)) d (ok tt) d'
      → Gives (head_object env b k) d' (ok m) d'
      → Gives (route_request lib (fs_backend env) r) d (ok (put_response lib (ok m))) d'
  unfolding route_request handle_put_object
  put-Gives {d = d} {d' = d'} {m = m} h g q = rw (route-put b k valid r h) (
      Gives-bind (answer_put lib (fs_backend env) r) {d' = d'} {a = ok tt}
        (Gives-attempt (rw (bucket_of-IsFor b k valid r h, key_of-IsFor b k valid r h) g))
        (Gives-reply {x = ok m} (put_response lib)
          (rw (bucket_of-IsFor b k valid r h, key_of-IsFor b k valid r h) q)))

  put_refused-Gives :
      {d : Disk}
      → IsFor b k put r
      → Refuses d (put_object env b k r.body (request_meta r))
      → Gives (route_request lib (fs_backend env) r) d (ok (no_bucket_at lib b)) d
  unfolding route_request handle_put_object
  put_refused-Gives {d = d} h g = rw (route-put b k valid r h) (
      Gives-bind (answer_put lib (fs_backend env) r) {d' = d} {a = err bucket_not_found}
        (Gives-attempt (rw (bucket_of-IsFor b k valid r h, key_of-IsFor b k valid r h) g))
        (rw (bucket_of-IsFor b k valid r h) (Gives-pure (no_bucket_at lib b) d)))

module _ (env : Env) (sized : (k : Bytes) → length (env.sha256 k) ≡ 32) (b k : Bytes)
    (valid : is_valid_bucket_name b ≡ true) where
  module _ (d : Disk) (h : HasBucket b d) (free : lookup (temp_path env b k) d ≡ none)
      (lib lib' : Library) (rp : HttpRequest) (p : IsFor b k put rp)
      (whole : rp.body.intact ≡ true) where
    abbrev pub stored : ObjectMeta
    stored = read_back env sized b k valid d h free rp.body (request_meta rp) whole

    abbrev pub put_after : Disk
    put_after = after env sized b k valid d h free rp.body (request_meta rp) whole

    put_there : HasObject env sized b k valid (raw rp.body.content) stored put_after
    put_there = after-HasObject env sized b k valid d h free rp.body (request_meta rp) whole

    pub put_request :
        Gives
          (route_request lib (fs_backend env) rp)
          d
          (ok (put_response lib (ok stored)))
          put_after
    put_request =
        put-Gives env b k valid lib rp p
          (put_object-Gives env sized b k valid d h free rp.body (request_meta rp) whole)
          (head_object-Gives env sized b k valid (raw rp.body.content) stored put_after put_there)

    -- In a bucket that exists, where the name of the temporary file is free and no call fails for
    -- an outside reason, after a PUT of an object with a body that is read whole a GET of it
    -- answers 200 with the bytes of the body and the headers of what was stored, and a HEAD answers
    -- 200 with the same headers and no body. The requests ask for the object in the path style and
    -- name no other operation. The bucket's name is valid, and a SHA-256 sum has 32 bytes.
    pub put-reads :
        (rg rh : HttpRequest)
        → IsFor b k get rg
        → IsFor b k head rh
        → Gives
            (route_request lib (fs_backend env) rp >> route_request lib' (fs_backend env) rg)
            d
            (ok (whole_object lib' stored rp.body.content))
            put_after
          × Gives
              (route_request lib (fs_backend env) rp >> route_request lib' (fs_backend env) rh)
              d
              (ok (bare 200 (object_header lib' stored)))
              put_after
    put-reads rg rh g h = (
      Gives-bind _ put_request (
          get-Gives env b k valid lib' rg g (
            get_object-Gives env sized b k valid (raw rp.body.content) stored put_after put_there)),
      Gives-bind _ put_request (
          head-Gives env b k valid lib' rh h (
            head_object-Gives env sized b k valid (raw rp.body.content) stored put_after
              put_there)),
    )

  pub no_key-at :
      (lib : Library) (r : HttpRequest)
      → r.path ≡ object_url b k
      → {m : Fs HttpResponse} {d : Disk} → Gives m d (ok (missing_at lib r.path)) d
      → Gives m d (ok (missing_at lib (object_url b k))) d
  no_key-at lib r e {m} {d} g = subst (λ p. Gives m d (ok (missing_at lib p)) d) e g

  -- Where no call fails for an outside reason, a DELETE of an object that is there answers 204, and
  -- GET and HEAD of it then answer 404 with the code NoSuchKey and the path as the resource. The
  -- requests ask for the object in the path style and name no other operation. The bucket's name is
  -- valid, and a SHA-256 sum has 32 bytes.
  pub delete-reads :
      (c : Content) (m : ObjectMeta) (d : Disk)
      → HasObject env sized b k valid c m d
      → (lib lib' : Library) (rd rg rh : HttpRequest) → IsFor b k delete rd
      → IsFor b k get rg
      → IsFor b k head rh
      → let gone = without env sized b k valid d in
        Gives (route_request lib (fs_backend env) rd) d (ok (bare 204 [])) gone
        × Gives
            (route_request lib' (fs_backend env) rg)
            gone
            (ok (missing_at lib' (object_url b k)))
            gone
        × Gives
            (route_request lib' (fs_backend env) rh)
            gone
            (ok (missing_at lib' (object_url b k)))
            gone
  delete-reads c m d o lib lib' rd rg rh pd pg ph =
      let there = without-HasBucket env sized b k valid b valid d o.in_bucket in
      let no_meta = lookup-erase_self (metadata_path env b k) (erase (object_path env b k) d) in
      (
        delete-Gives env b k valid lib rd pd (delete_object-Gives env sized b k valid c m d o),
        no_key-at lib' rg pg.path (
            get-Gives env b k valid lib' rg pg (
              get_object-missing env sized b k valid (without env sized b k valid d) there
                no_meta)),
        no_key-at lib' rh ph.path (
            head-Gives env b k valid lib' rh ph (
              head_object-missing env sized b k valid (without env sized b k valid d) there
                no_meta)),
      )

  -- Where no call fails for an outside reason and the bucket, whose name is valid, has no metadata
  -- file, PUT, GET, HEAD and DELETE of any of its objects answer 404 with the code NoSuchBucket and
  -- the bucket as the resource, and leave the tree as it was. A SHA-256 sum has 32 bytes.
  pub missing_bucket :
      (d : Disk)
      → HasLayout d
      → lookup (bucket_metadata_path b) d ≡ none
      → (lib : Library) (rp rg rh rd : HttpRequest) → IsFor b k put rp
      → IsFor b k get rg
      → IsFor b k head rh
      → IsFor b k delete rd
      → Gives (route_request lib (fs_backend env) rp) d (ok (no_bucket_at lib b)) d
        × Gives (route_request lib (fs_backend env) rg) d (ok (no_bucket_at lib b)) d
        × Gives (route_request lib (fs_backend env) rh) d (ok (no_bucket_at lib b)) d
        × Gives (route_request lib (fs_backend env) rd) d (ok (no_bucket_at lib b)) d
  missing_bucket d l missing lib rp rg rh rd pp pg ph pd =
      let o : ListOptions = record { prefix = []; delimiter = []; marker = []; max_keys = 0 } in
      let (np, ng, nh, nd, nc, nr, nl, nb) =
        object_operations-missing b valid d l missing env k b k rp.body (request_meta rp) o in
      (
        put_refused-Gives env b k valid lib rp pp np,
        rw (bucket_of-IsFor b k valid rg pg) at (get-Gives env b k valid lib rg pg ng),
        rw (bucket_of-IsFor b k valid rh ph) at (head-Gives env b k valid lib rh ph nh),
        rw (bucket_of-IsFor b k valid rd pd) at (delete-Gives env b k valid lib rd pd nd),
      )
