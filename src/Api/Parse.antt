-- ===== src/Api/Parse.antt =====
-- internal/api/handler.go: parseBucketKey, and the sources of copies: what the cut at a slash gives.
use home_store.Prelude.{ℕ, ◌≡◌, refl, ap, ◌∙◌, Option, none, some, [], ◌∷◌, ◌++◌, arith}
use home_store.Prelude.Bytes.{Bytes, codes, lacks, split_once, trim_prefix}
use home_store.Http.{HttpRequest}
use home_store.Api.Responses.{
  or_no_key, parse_bucket_key, bucket_of, both_named, source_of, trim_slash,
}
use home_store.Backend.Keeps.{IsBare}

split_once-IsBare : (s : Bytes) → IsBare (split_once b'/' s).0
unfolding split_once
split_once-IsBare [] = refl
split_once-IsBare (c ∷ s) = ground (arith, split_once-IsBare s)

pub split_once-none : (s : Bytes) → (split_once b'/' s).1 ≡ none → IsBare s
unfolding split_once
split_once-none [] h = refl
split_once-none (c ∷ s) h = ground (arith, split_once-none s)

pub split_once-cut : (b k : Bytes) → IsBare b → split_once b'/' (b ++ b'/' ∷ k) ≡ (b, some k)
unfolding split_once
split_once-cut [] k h = ground arith
split_once-cut (c ∷ b) k h = ground (arith, split_once-cut b k)

or_no_key-first : (p : Bytes × Option Bytes) → (or_no_key p).0 ≡ p.0
or_no_key-first (b, none) = refl
or_no_key-first (b, some k) = refl

-- The bucket of a request has no slash.
pub bucket_of-IsBare : (r : HttpRequest) → IsBare (bucket_of r)
unfolding parse_bucket_key
bucket_of-IsBare r =
    ap (lacks b'/') (or_no_key-first (split_once b'/' (trim_slash r.path)))
    ∙ split_once-IsBare (trim_slash r.path)

both_named-IsBare :
    (p : Bytes × Option Bytes) (b k : Bytes) → IsBare p.0 → both_named p ≡ some (b, k) → IsBare b
both_named-IsBare (x, none) b k h e = cc
both_named-IsBare ([], some y) b k h e = cc
both_named-IsBare (c ∷ x, some []) b k h e = cc
both_named-IsBare (c ∷ x, some (d ∷ y)) b k h e = ground arith

-- So has the bucket of a source.
pub source_of-IsBare : (s b k : Bytes) → source_of s ≡ some (b, k) → IsBare b
unfolding source_of
source_of-IsBare s b k e = both_named-IsBare (split_once b'/' s) b k (split_once-IsBare s) e

-- parseBucketKey reads the path made of a slash, a bucket with no slash in its name, a slash and
-- any key as this bucket and this key.
pub parse_bucket_key-join :
    (b k : Bytes) → IsBare b → parse_bucket_key (codes "/" ++ (b ++ b'/' ∷ k)) ≡ (b, k)
unfolding parse_bucket_key trim_prefix
parse_bucket_key-join b k h = rw (split_once-cut b k h) refl

-- A source of a bucket with no slash and of a key, neither of them empty, is read as these two.
pub source_of-join :
    (c d : ℕ) (b k : Bytes)
    → IsBare (c ∷ b)
    → source_of ((c ∷ b) ++ b'/' ∷ d ∷ k) ≡ some (c ∷ b, d ∷ k)
unfolding source_of
source_of-join c d b k h = rw (split_once-cut (c ∷ b) (d ∷ k) h) refl

-- A text with no slash has no second part.
pub split_once-bare : (s : Bytes) → IsBare s → (split_once b'/' s).1 ≡ none
unfolding split_once
split_once-bare [] h = refl
split_once-bare (c ∷ s) h = ground (arith, split_once-bare s)
