-- ===== src/Api/Pages.antt =====
-- internal/api/list.go: max-keys as it is read, and the pages of version 2.
use mathlib.Core.List.{append-nil}
use mathlib.Core.Option
use home_store.Prelude.{
  ℕ, zero, suc, ◌+◌, ◌≤◌, ◌<◌, ◌≡◌, refl, sym, ap, ◌∙◌, ◌≢◌, true, Option, none, some, List, [],
  ◌∷◌, ◌++◌, map, arith, ltb, if◌then◌else◌, length, All, Bool-cases, inl, inr,
}
use home_store.Prelude.Bytes.{Bytes, codes, bytes_eq, bytes_eq_iff}
use home_store.Storage.{ObjectMeta, ObjectInfo, ListResult}
use home_store.Http.{HttpRequest, query_get}
use home_store.Http.Numbers.{ℤ, pos, negsuc, atoi}
use home_store.Http.Numbers.RoundTrip.{atoi-itoa, itoa-ne-nil}
use home_store.Http.Base64.{encode, decode}
use home_store.Http.Base64.RoundTrip.{IsByte, decode-encode}
use home_store.Fs.Parts.{itoa}
use home_store.Fs.Listing.{list_page, info_of}
use home_store.Fs.Listing.Bounds.{list_page-bounds}
use home_store.Fs.Listing.Flat.{listed}
use home_store.Fs.Listing.Pages.{
  all_pages, next_page, HasDistinctKeys, HasKey, all_pages_lem, next_marker-All,
}
use home_store.Api.Lists.{capped, parsed_max_keys, options_from, marker_of, next_token_of}

capped-bound : (o : Option ℤ) → capped o ≤ 1000
capped-bound none = ground arith
capped-bound (some (negsuc n)) = ground arith
capped-bound (some (pos n)) = ground arith

parsed-bound : (value : Bytes) → parsed_max_keys value ≤ 1000
unfolding parsed_max_keys
parsed-bound value = ground (arith, capped-bound (atoi value))

-- Whatever a list request asks for, its page has at most 1000 objects and common prefixes together.
pub request-bound :
    (r : HttpRequest) (marker : Bytes) (metadata : List ObjectMeta)
    → let l = list_page (options_from r marker) metadata in
      length l.objects + length l.common_prefixes ≤ 1000
request-bound r marker metadata =
    let o = options_from r marker in
    ground
      (arith, (list_page-bounds o metadata).0, parsed-bound (query_get (codes "max-keys") r.query))

-- The decimal text of a number that an int of 64 bits holds is read by parsedMaxKeys as the number,
-- or as 1000 where it is more.
pub parsed_max_keys-itoa :
    (n : ℕ) → n ≤ 9223372036854775807 → parsed_max_keys (itoa n) ≡ (if ltb 1000 n then 1000 else n)
unfolding parsed_max_keys
parsed_max_keys-itoa n h = ground (arith, atoi-itoa n h, bytes_eq_iff (itoa n) [], itoa-ne-nil n)

-- The request with a token in front of its query.
abbrev pub with_token : HttpRequest → Bytes → HttpRequest
with_token r token = record r { query = (codes "continuation-token", token) ∷ r.query }

-- A page, and what the pages after it give, if there are any.
abbrev joined : ListResult → Option (List ObjectInfo) → Option (List ObjectInfo)
joined l rest = if l.is_truncated then Option.map (λ os. l.objects ++ os) rest else some l.objects

-- What a client collects that sends its request again with each NextContinuationToken, for at most
-- so many pages; `none` where a request is refused.
unfoldable pub follow_tokens : ℕ → HttpRequest → List ObjectMeta → Option (List ObjectInfo)
unfolding query_get encode decode bytes_eq list_page
follow_tokens zero r metadata = some []
follow_tokens (suc fuel) r metadata = elim (marker_of r) [
  | none ↦ none
  | some marker ↦
      let l = list_page (options_from r marker) metadata in
      joined l (follow_tokens fuel (with_token r (next_token_of l)) metadata)
]

encode-ne-nil : (s : Bytes) → s ≢ [] → encode s ≢ []
unfolding encode
encode-ne-nil [] h e = h refl
encode-ne-nil (a ∷ []) h e = cc e
encode-ne-nil (a ∷ b ∷ []) h e = cc e
encode-ne-nil (a ∷ b ∷ c ∷ s) h e = cc e

marker_of-with_token :
    (r : HttpRequest) (k : Bytes)
    → k ≢ []
    → All IsByte k
    → marker_of (with_token r (encode k)) ≡ some k
unfolding query_get bytes_eq
marker_of-with_token r k h b =
    ground (arith, bytes_eq_iff (encode k) [], encode-ne-nil k h, decode-encode k b)

-- The NextContinuationToken of a truncated page whose NextMarker is a list of bytes, and not empty,
-- is not empty, and a request of version 2 that has it as its continuation-token, whatever else its
-- query holds, starts at this NextMarker.
pub marker_of-next_token_of :
    (r : HttpRequest) (l : ListResult)
    → l.is_truncated ≡ true
    → l.next_marker ≢ []
    → All IsByte l.next_marker
    → (next_token_of l ≢ []) × (marker_of (with_token r (next_token_of l)) ≡ some l.next_marker)
marker_of-next_token_of r l t h b =
    rw t (encode-ne-nil l.next_marker h, marker_of-with_token r l.next_marker h b)

with_token-options :
    (r : HttpRequest) (t marker : Bytes)
    → options_from (with_token r t) marker ≡ options_from r marker
unfolding query_get bytes_eq
with_token-options r t marker = refl

joined_lem :
    (l : ListResult) (rest : Option (List ObjectInfo)) (os : List ObjectInfo)
    → (l.is_truncated ≡ true → rest ≡ some os)
    → joined l rest ≡ some (l.objects ++ (if l.is_truncated then os else []))
joined_lem l rest os h = elim (Bool-cases l.is_truncated) [
  | inl t ↦ rw (t, h t) refl
  | inr f ↦ rw f (ap some (sym (append-nil l.objects)))
]

module _ (metadata : List ObjectMeta) (named : All HasKey metadata)
    (bytes : All (λ m. All IsByte m.key) metadata) where
  follow_tokens-all_pages :
      (fuel : ℕ) (r : HttpRequest) (marker : Bytes)
      → query_get (codes "delimiter") r.query ≡ []
      → marker_of r ≡ some marker
      → follow_tokens fuel r metadata ≡ some (all_pages fuel (options_from r marker) metadata)
  unfolding follow_tokens all_pages
  follow_tokens-all_pages zero r marker flat e = refl
  follow_tokens-all_pages (suc fuel) r marker flat e =
      let o = options_from r marker in
      let l = list_page o metadata in
      rw (e, follow_tokens)
        (joined_lem l _ (all_pages fuel (next_page o l) metadata) (λ more.
          let k = next_marker-All (λ c. c ≢ []) o metadata flat named more in
          let b = next_marker-All (λ c. All IsByte c) o metadata flat bytes more in
          follow_tokens-all_pages fuel (with_token r (next_token_of l)) l.next_marker flat
            (marker_of-next_token_of r l more k b).1))

  -- With no delimiter, a client that sends its request of version 2 again with each
  -- NextContinuationToken gets each object after its first marker once, in key order, and no
  -- request is refused; more pages than objects are enough. The keys are distinct lists of bytes,
  -- none of them empty.
  pub follow_tokens_lem :
      HasDistinctKeys metadata
      → (fuel : ℕ) (r : HttpRequest) (marker : Bytes) → query_get (codes "delimiter") r.query ≡ []
      → marker_of r ≡ some marker
      → length (listed (options_from r marker) metadata) < fuel
      → follow_tokens fuel r metadata ≡ some (map info_of (listed (options_from r marker) metadata))
  follow_tokens_lem keys fuel r marker flat e h =
      follow_tokens-all_pages fuel r marker flat e
      ∙ ap some (all_pages_lem metadata keys named fuel (options_from r marker) flat h)
