-- ===== src/Api/Runs/Buckets.antt =====
-- Requests for one bucket: PUT, HEAD and DELETE of its path.
use home_store.Prelude.{
  ◌≡◌, ◌≢◌, ap, ◌∙◌, arith, Bool, true, false, none, [], ◌∷◌, ◌++◌, length, list_cases,
}
use home_store.Prelude.Bytes.{Bytes, codes, bytes_eq, bytes_eq_iff, lacks, split_once, trim_prefix}
use home_store.Storage.Names.{is_valid_bucket_name}
use home_store.Os.Disk.{Disk, lookup}
use home_store.Os.Exec.{World, Result, ok, Fs, ◌>>◌, ◌>>=◌, attempt, pure}
use home_store.Os.Calls.{Env}
use home_store.Os.Layout.{HasLayout}
use home_store.Os.Calm.{Gives, Gives-bind}
use home_store.Backend.{Backend}
use home_store.Http.{Method, put, delete, head, HttpRequest, HttpResponse}
use home_store.S3.{invalid_bucket_name, bucket_already_exists, bucket_not_empty}
use home_store.Fs.Paths.{bucket_metadata_path}
use home_store.Fs.Implements.{fs_backend}
use home_store.Fs.Buckets.{create_bucket, delete_bucket, bucket_exists}
use home_store.Api.Responses.{
  Library, bare, slash, request_meta, error_response, trim_slash, whole_bucket,
}
use home_store.Api.Parse.{split_once-bare}
use home_store.Api.Buckets.{
  with_bucket, created_response, deleted_response, existence_response, handle_create_bucket,
  handle_delete_bucket, handle_head_bucket,
}
use home_store.Api.Handler.{bucket_route, part_route, route, route_request}
use home_store.Api.Runs.Objects.{put_after, put_request}
use home_store.Fs.Touches.Objects.{temp_path}
use home_store.Fs.Runs.Put.{HasBucket}
use home_store.Fs.Runs.Buckets.{
  created_disk, create_bucket-Gives, exists_there, create_again, refused,
}
use home_store.Api.Runs.{IsFor, Gives-reply, valid-lacks}

-- The request is for the bucket as a whole.
pub record IsForBucket (b : Bytes) (m : Method) (r : HttpRequest) : Type 0 where
  pub path : r.path ≡ codes "/" ++ b
  pub method : r.method ≡ m

-- The methods whose handlers check the name first.
abbrev pub checks_name : Method → Bool
checks_name put = true
checks_name delete = true
checks_name head = true
checks_name _ = false

abbrev pub bad_name : Library → HttpResponse
bad_name lib = error_response lib 400 invalid_bucket_name (codes "invalid bucket name")

module _ (b : Bytes) (single : lacks b'/' b ≡ true) (some_name : b ≢ []) {m : Method}
    (r : HttpRequest) (h : IsForBucket b m r) where
  pub whole_bucket-IsForBucket : whole_bucket r ≡ b
  unfolding trim_prefix
  whole_bucket-IsForBucket = ap trim_slash h.path

  not_root : bytes_eq r.path (codes "/") ≡ false
  not_root = ground (arith, h.path, bytes_eq_iff r.path (codes "/"), list_cases b)

  no_key : (split_once b'/' (trim_slash r.path)).1 ≡ none
  no_key = ap (λ s. (split_once b'/' s).1) whole_bucket-IsForBucket ∙ split_once-bare b single

  pub route-IsForBucket : route r ≡ bucket_route r m
  unfolding route
  route-IsForBucket = rw not_root (ap (part_route r) no_key ∙ ap (bucket_route r) h.method)

-- A name is checked before anything is called.
with_bucket-bad :
    (lib : Library) (b : Bytes) (act : Fs HttpResponse)
    → b ≢ []
    → is_valid_bucket_name b ≡ false
    → with_bucket lib b act ≡ pure (bad_name lib)
unfolding with_bucket
with_bucket-bad lib b act h v = ground (arith, bytes_eq_iff b [], v)

with_bucket-good :
    (lib : Library) (b : Bytes) (act : Fs HttpResponse)
    → b ≢ []
    → is_valid_bucket_name b ≡ true
    → with_bucket lib b act ≡ act
unfolding with_bucket
with_bucket-good lib b act h v = ground (arith, bytes_eq_iff b [], v)

module _ (lib : Library) (backend : Backend) (b : Bytes) (some_name : b ≢ [])
    (r : HttpRequest) where
  -- The handlers whose request has the name checked.
  module _ (single : lacks b'/' b ≡ true) {m : Method} (h : IsForBucket b m r) where
    bad_handlers :
        is_valid_bucket_name b ≡ false
        → (handle_create_bucket lib backend r ≡ pure (bad_name lib))
          × (handle_delete_bucket lib backend r ≡ pure (bad_name lib))
          × (handle_head_bucket lib backend r ≡ pure (bad_name lib))
    unfolding handle_create_bucket handle_delete_bucket handle_head_bucket
    bad_handlers v = rw (whole_bucket-IsForBucket b single some_name r h) (
      with_bucket-bad lib b _ some_name v,
      with_bucket-bad lib b _ some_name v,
      with_bucket-bad lib b _ some_name v,
    )

  -- PUT, DELETE and HEAD of a bucket whose name is not empty, has no slash and is not valid answer
  -- 400 with the code InvalidBucketName before any call is made, whatever the backend is.
  pub invalid_name-refused :
      lacks b'/' b ≡ true
      → is_valid_bucket_name b ≡ false
      → (m : Method) → IsForBucket b m r
      → checks_name m ≡ true
      → (w : World) → route_request lib backend r w ≡ (ok (bad_name lib), w)
  unfolding route_request pure
  invalid_name-refused single v put h c w =
      rw (route-IsForBucket b single some_name r h) (ap (λ a. a w) (bad_handlers single h v).0)
  invalid_name-refused single v delete h c w =
      rw (route-IsForBucket b single some_name r h) (ap (λ a. a w) (bad_handlers single h v).1)
  invalid_name-refused single v head h c w =
      rw (route-IsForBucket b single some_name r h) (ap (λ a. a w) (bad_handlers single h v).2)
  invalid_name-refused single v _ h c w = absurd (cc c)

pub valid-ne-nil : (b : Bytes) → is_valid_bucket_name b ≡ true → b ≢ []
unfolding is_valid_bucket_name
valid-ne-nil [] v e = absurd (cc v)
valid-ne-nil (c ∷ b) v e = cc e

module _ (env : Env) (b : Bytes) (valid : is_valid_bucket_name b ≡ true) (lib : Library)
    (r : HttpRequest) where
  some_name : b ≢ []
  some_name = valid-ne-nil b valid

  at_bucket :
      {m : Method} {A : Type 0} {x : Result A} {d d' : Disk} (op : Bytes → Fs A)
      (f : Bytes → Result A → HttpResponse)
      → IsForBucket b m r
      → Gives (op b) d x d'
      → Gives
          (with_bucket lib
            (whole_bucket r)
            (attempt (op (whole_bucket r)) >>= λ y. pure (f (whole_bucket r) y)))
          d
          (ok (f b x))
          d'
  at_bucket op f h g =
      rw
        (
          whole_bucket-IsForBucket b (valid-lacks b valid) some_name r h,
          with_bucket-good lib b _ some_name valid,
        )
        (Gives-reply (f b) g)

  pub create-Gives :
      {x : Result Unit} {d d' : Disk}
      → IsForBucket b put r
      → Gives (create_bucket env b) d x d'
      → Gives (route_request lib (fs_backend env) r) d (ok (created_response lib b x)) d'
  unfolding route_request handle_create_bucket
  create-Gives h g =
      rw (route-IsForBucket b (valid-lacks b valid) some_name r h)
        (at_bucket (create_bucket env) (created_response lib) h g)

  pub head-Gives :
      {x : Result Bool} {d d' : Disk}
      → IsForBucket b head r
      → Gives (bucket_exists b) d x d'
      → Gives (route_request lib (fs_backend env) r) d (ok (existence_response lib x)) d'
  unfolding route_request handle_head_bucket
  head-Gives h g =
      rw (route-IsForBucket b (valid-lacks b valid) some_name r h)
        (at_bucket bucket_exists (λ _. existence_response lib) h g)

  pub delete-Gives :
      {x : Result Unit} {d d' : Disk}
      → IsForBucket b delete r
      → Gives (delete_bucket b) d x d'
      → Gives (route_request lib (fs_backend env) r) d (ok (deleted_response lib x)) d'
  unfolding route_request handle_delete_bucket
  delete-Gives h g =
      rw (route-IsForBucket b (valid-lacks b valid) some_name r h)
        (at_bucket delete_bucket (λ _. deleted_response lib) h g)

module _ (env : Env) (b : Bytes) (valid : is_valid_bucket_name b ≡ true) (lib lib' : Library) where
  -- Where no call fails for an outside reason and a bucket with a valid name has no metadata file,
  -- PUT of the bucket answers 200 with its location, HEAD then answers 200, and PUT again answers
  -- 409 with the code BucketAlreadyExists and changes nothing.
  pub create-then :
      (d : Disk) (l : HasLayout d) (missing : lookup (bucket_metadata_path b) d ≡ none)
      → (rp rh : HttpRequest) → IsForBucket b put rp
      → IsForBucket b head rh
      → let made = created_disk b valid env d l missing in
        Gives
          (route_request lib (fs_backend env) rp)
          d
          (ok (bare 200 ((codes "Location", slash b) ∷ [])))
          made
        × Gives (route_request lib' (fs_backend env) rh) made (ok (bare 200 [])) made
        × Gives
            (route_request lib' (fs_backend env) rp)
            made
            (ok (error_response lib' 409 bucket_already_exists (codes "bucket already exists")))
            made
  create-then d l missing rp rh p h = (
    create-Gives env b valid lib rp p (create_bucket-Gives b valid env d l missing),
    head-Gives env b valid lib' rh h (exists_there b valid env d l missing),
    create-Gives env b valid lib' rp p (create_again b valid env d l missing),
  )

  -- In a bucket that exists, where the name of the temporary file is free and no call fails for an
  -- outside reason, DELETE of the bucket after a PUT of an object with a body that is read whole
  -- answers 409 with the code BucketNotEmpty and leaves the tree as it was. The bucket's name is
  -- valid, and a SHA-256 sum has 32 bytes.
  pub put-delete_bucket :
      (sized : (k : Bytes) → length (env.sha256 k) ≡ 32) (k : Bytes) (d : Disk) (h : HasBucket b d)
      (free : lookup (temp_path env b k) d ≡ none) (rp rd : HttpRequest)
      → (p : IsFor b k put rp) → (whole : rp.body.intact ≡ true) → IsForBucket b delete rd
      → Gives
          (route_request lib (fs_backend env) rp >> route_request lib' (fs_backend env) rd)
          d
          (ok (
            error_response lib' 409 bucket_not_empty
              (codes "the bucket you tried to delete is not empty")))
          (put_after env sized b k valid d h free lib lib' rp p whole)
  put-delete_bucket sized k d h free rp rd p whole q =
      Gives-bind _ (put_request env sized b k valid d h free lib lib' rp p whole) (
        delete-Gives env b valid lib' rd q
          (refused b valid env sized k d h free rp.body (request_meta rp) whole))
