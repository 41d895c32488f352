-- ===== src/Api/Runs.antt =====
-- Requests for one object in the path style, the handlers that they get, and one answer from one
-- operation.
pub mod Objects
pub mod Buckets
pub mod Deletes
pub mod Copies
use home_store.Prelude.{
  ◌≡◌, refl, ap, ◌∙◌, arith, Bool, true, false, Option, some, [], ◌∷◌, ◌++◌, if◌then◌else◌,
}
use home_store.Prelude.Bytes.{Bytes, codes, bytes_eq, bytes_eq_iff, lacks, split_once, trim_prefix}
use home_store.Storage.Names.{is_valid_bucket_name}
use home_store.Os.Disk.{Disk}
use home_store.Os.Exec.{Result, ok, Fs, pure, attempt, ◌>>=◌}
use home_store.Os.Calm.{Gives, Gives-pure, Gives-attempt, Gives-bind}
use home_store.Fs.Paths.Shape.{IsPlain, valid_name-IsPlain}
use home_store.Http.{
  Method, get, put, delete, head, HttpRequest, HttpResponse, raw, query_has, header_get,
}
use home_store.Storage.{ObjectMeta}
use home_store.Api.Objects.{object_header}
use home_store.Api.Responses.{Library, parse_bucket_key, bucket_of, key_of, trim_slash}
use home_store.Api.Parse.{split_once-cut, parse_bucket_key-join}
use home_store.Api.Handler.{
  Route, put_object, get_object, head_object, delete_object, part_route, route,
}

-- `/bucket/key`
abbrev pub object_url : Bytes → Bytes → Bytes
object_url b k = codes "/" ++ (b ++ b'/' ∷ k)

-- The request is for the object, and nothing in it asks for another operation on it.
pub record IsFor (b k : Bytes) (m : Method) (r : HttpRequest) : Type 0 where
  pub path : r.path ≡ object_url b k
  pub method : r.method ≡ m
  pub no_upload : query_has (codes "uploadId") r.query ≡ false
  pub no_rename : query_has (codes "renameObject") r.query ≡ false
  pub no_attributes : query_has (codes "attributes") r.query ≡ false
  pub no_source : header_get (codes "x-amz-copy-source") r.header ≡ []

-- The answer to GET of an object.
abbrev pub whole_object : Library → ObjectMeta → Bytes → HttpResponse
whole_object lib m content = record {
  status = 200;
  header = object_header lib m;
  body = raw content;
}

-- An operation that gives `x` is answered by what the response makes of it.
pub Gives-reply :
    {A : Type 0} {m : Fs A} {d d' : Disk} {x : Result A} (f : Result A → HttpResponse)
    → Gives m d x d'
    → Gives (attempt m >>= λ y. pure (f y)) d (ok (f x)) d'
Gives-reply {d' = d'} {x = x} f g = Gives-bind _ (Gives-attempt g) (Gives-pure (f x) d')

plain-lacks : (b : Bytes) → IsPlain b → lacks b'/' b ≡ true
plain-lacks [] h = refl
plain-lacks (c ∷ b) h = h.1

-- A valid name has no slash.
pub valid-lacks : (b : Bytes) → is_valid_bucket_name b ≡ true → lacks b'/' b ≡ true
valid-lacks b v = plain-lacks b (valid_name-IsPlain b v)

not_root :
    (b k : Bytes) → is_valid_bucket_name b ≡ true → bytes_eq (object_url b k) (codes "/") ≡ false
unfolding is_valid_bucket_name
not_root [] k v = absurd (cc v)
not_root (c ∷ b) k v = ground (arith, bytes_eq_iff (object_url (c ∷ b) k) (codes "/"))

-- What the path of an object says.
module _ (b k : Bytes) (valid : is_valid_bucket_name b ≡ true) (r : HttpRequest)
    (path : r.path ≡ object_url b k) where
  pub bucket_of-url : bucket_of r ≡ b
  bucket_of-url =
      ap (λ p. (parse_bucket_key p).0) path
      ∙ ap (λ p. p.0) (parse_bucket_key-join b k (valid-lacks b valid))

  pub key_of-url : key_of r ≡ k
  key_of-url =
      ap (λ p. (parse_bucket_key p).1) path
      ∙ ap (λ p. p.1) (parse_bucket_key-join b k (valid-lacks b valid))

  cut : (split_once b'/' (trim_slash r.path)).1 ≡ some k
  unfolding trim_prefix
  cut = rw (path, split_once-cut b k (valid-lacks b valid)) refl

  pub route-url : route r ≡ part_route r (some k)
  unfolding route
  route-url = rw (path, not_root b k valid) (rw path at (ap (part_route r) cut))

module _ (b k : Bytes) (valid : is_valid_bucket_name b ≡ true) {m : Method} (r : HttpRequest)
    (h : IsFor b k m r) where
  pub bucket_of-IsFor : bucket_of r ≡ b
  bucket_of-IsFor = bucket_of-url b k valid r h.path

  pub key_of-IsFor : key_of r ≡ k
  key_of-IsFor = key_of-url b k valid r h.path

  route-IsFor : route r ≡ part_route r (some k)
  route-IsFor = route-url b k valid r h.path

-- The handler of each method.
module _ (b k : Bytes) (valid : is_valid_bucket_name b ≡ true) (r : HttpRequest) where
  pub route-put : IsFor b k put r → route r ≡ put_object
  unfolding bytes_eq
  route-put h = rw (route-IsFor b k valid r h, h.no_upload, h.method, h.no_rename, h.no_source) refl

  pub route-get : IsFor b k get r → route r ≡ get_object
  route-get h = rw (route-IsFor b k valid r h, h.no_upload, h.method, h.no_attributes) refl

  pub route-head : IsFor b k head r → route r ≡ head_object
  route-head h = rw (route-IsFor b k valid r h, h.no_upload, h.method) refl

  pub route-delete : IsFor b k delete r → route r ≡ delete_object
  route-delete h = rw (route-IsFor b k valid r h, h.no_upload, h.method) refl
