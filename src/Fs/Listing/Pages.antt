-- ===== src/Fs/Listing/Pages.antt =====
-- Listing page after page with the markers that ListObjects returns.
use mathlib.Core.List.{append-nil}
use home_store.Prelude.{
  ℕ, zero, suc, ◌≤◌, ◌<◌, ◌≡◌, refl, sym, ap, ◌∙◌, ◌≢◌, Bool, true, false, List, [], ◌∷◌, ◌++◌, map,
  arith, ltb, if◌then◌else◌, length, length-drop, take, drop, keep_if, All, Bool-cases, inl, inr,
}
use home_store.Prelude.Bytes.{Bytes, bytes_eq_iff, bytes_lt}
use home_store.Prelude.Bytes.Order.{
  bytes_lt_irrefl, bytes_lt_asymm, bytes_lt_trans, bytes_le_trans, bytes_lt_total,
}
use home_store.Prelude.Sort.{sort_by}
use home_store.Prelude.Sort.Sorted.{
  IsStrictlySorted, IsDistinct, All-sort_by, All-mono, sort_by-IsStrictlySorted,
}
use home_store.Storage.{ObjectMeta, ObjectInfo, ListOptions, ListResult}
use home_store.Fs.Listing.{info_of, after_marker, list_page, limit_of, by_key}
use home_store.Fs.Listing.Flat.{kept, listed, last_key_of, list_page_flat}

abbrev pub next_page : ListOptions → ListResult → ListOptions
next_page o r = record o { marker = r.next_marker }

-- What a client collects that follows NextMarker for at most so many pages.
unfoldable pub all_pages : ℕ → ListOptions → List ObjectMeta → List ObjectInfo
all_pages zero o metadata = []
all_pages (suc fuel) o metadata =
    let r = list_page o metadata in
    let rest = all_pages fuel (next_page o r) metadata in
    r.objects ++ (if r.is_truncated then rest else [])

after : Bytes → ObjectMeta → Bool
after k m = bytes_lt k m.key

abbrev pub HasKey : ObjectMeta → Type 0
HasKey m = m.key ≢ []

after_marker_cons :
    (o : ListOptions) (k key : Bytes)
    → k ≢ []
    → after_marker (record o { marker = k }) key ≡ bytes_lt k key
unfolding after_marker
after_marker_cons o k key h = ground (arith, bytes_eq_iff k [])

keep_if-none {ℓ} :
    {A : Type ℓ} (p : A → Bool) (xs : List A) → All (λ x. p x ≡ true) xs → keep_if p xs ≡ xs
unfolding keep_if
keep_if-none p [] h = refl
keep_if-none p (x ∷ xs) h = ground (arith, h.0, keep_if-none p xs h.1)

keep_if-keep_if {ℓ} :
    {A : Type ℓ} (p q : A → Bool)
    → ((x : A) → p x ≡ true → q x ≡ true)
    → (xs : List A) → keep_if p (keep_if q xs) ≡ keep_if p xs
unfolding keep_if
keep_if-keep_if p q h [] = refl
keep_if-keep_if p q h (x ∷ xs) = ground (arith, h x, keep_if-keep_if p q h xs)

keep_if-cong {ℓ} :
    {A : Type ℓ} (p q : A → Bool)
    → ((x : A) → p x ≡ q x)
    → (xs : List A) → keep_if p xs ≡ keep_if q xs
unfolding keep_if
keep_if-cong p q h [] = refl
keep_if-cong p q h (x ∷ xs) = ground (arith, h x, keep_if-cong p q h xs)

-- In a strictly sorted list what lies after the last of the first `n` items is the rest.
last_after :
    (n : ℕ) (m : ObjectMeta) (ms : List ObjectMeta)
    → IsStrictlySorted by_key (m ∷ ms)
    → bytes_lt (last_key_of m.key (take n ms)) m.key ≡ false
last_after zero m ms s = bytes_lt_irrefl m.key
last_after (suc n) m [] s = bytes_lt_irrefl m.key
last_after (suc n) m (m' ∷ ms) s =
    bytes_le_trans m.key m'.key _ (bytes_lt_asymm m.key m'.key (s.0).0) (last_after n m' ms s.1)

keep_after_last :
    (n : ℕ) (d : Bytes) (ms : List ObjectMeta)
    → IsStrictlySorted by_key ms
    → n < length ms
    → keep_if (after (last_key_of d (take (suc n) ms))) ms ≡ drop (suc n) ms
unfolding keep_if after
keep_after_last n d [] s h = elim h [ ]
keep_after_last zero d (m ∷ ms) s h =
    ground (arith, bytes_lt_irrefl m.key, keep_if-none (after m.key) ms s.0)
keep_after_last (suc n) d (m ∷ []) s h = absurd (omega arith)
keep_after_last (suc n) d (m ∷ m' ∷ ms) s h =
    ground (arith, keep_after_last n m.key (m' ∷ ms) s.1, last_after (suc n) m (m' ∷ ms) s)

pub All-keep_if {ℓ κ} :
    {A : Type ℓ} (P : A → Type κ) (p : A → Bool) (xs : List A) → All P xs → All P (keep_if p xs)
unfolding keep_if
All-keep_if P p [] h = tt
All-keep_if P p (x ∷ xs) h = elim (Bool-cases (p x)) [
  | inl e ↦ rw e (h.0, All-keep_if P p xs h.1)
  | inr e ↦ rw e (All-keep_if P p xs h.1)
]

keep_if-IsStrictlySorted {ℓ} :
    {A : Type ℓ} (less : A → A → Bool) (p : A → Bool) (xs : List A)
    → IsStrictlySorted less xs
    → IsStrictlySorted less (keep_if p xs)
unfolding keep_if
keep_if-IsStrictlySorted less p [] h = tt
keep_if-IsStrictlySorted less p (x ∷ xs) h = elim (Bool-cases (p x)) [
  | inl e ↦ rw e (All-keep_if _ p xs h.0, keep_if-IsStrictlySorted less p xs h.1)
  | inr e ↦ rw e (keep_if-IsStrictlySorted less p xs h.1)
]

-- No two objects have the same key.
abbrev pub HasDistinctKeys : List ObjectMeta → Type 0
HasDistinctKeys [] = Unit
HasDistinctKeys (m ∷ ms) = All (λ n. m.key ≢ n.key) ms × HasDistinctKeys ms

IsDistinct-keys : (ms : List ObjectMeta) → HasDistinctKeys ms → IsDistinct by_key ms
IsDistinct-keys [] h = tt
IsDistinct-keys (m ∷ ms) h =
    (All-mono _ _ (λ n k e. apart m.key n.key k e) ms h.0, IsDistinct-keys ms h.1)
  where
    apart : (a b : Bytes) → a ≢ b → bytes_lt a b ≡ false → bytes_lt b a ≡ true
    apart a b h e = elim (Bool-cases (bytes_lt b a)) [
      | inl t ↦ t
      | inr f ↦ absurd (h (bytes_lt_total a b e f))
    ]

-- What holds of every key holds of the last one.
pub last_key_of-All :
    (P : Bytes → Type 0) (n : ℕ) (d : Bytes) (ms : List ObjectMeta)
    → n < length ms
    → All (λ m. P m.key) ms
    → P (last_key_of d (take (suc n) ms))
last_key_of-All P n d [] h hs = elim h [ ]
last_key_of-All P zero d (m ∷ ms) h hs = hs.0
last_key_of-All P (suc n) d (m ∷ []) h hs = absurd (omega arith)
last_key_of-All P (suc n) d (m ∷ m' ∷ ms) h hs =
    last_key_of-All P n m.key (m' ∷ ms) (omega arith) hs.1

keep_if-All {ℓ} : {A : Type ℓ} (p : A → Bool) (xs : List A) → All (λ x. p x ≡ true) (keep_if p xs)
unfolding keep_if
keep_if-All p [] = tt
keep_if-All p (x ∷ xs) = elim (Bool-cases (p x)) [
  | inl e ↦ rw e (e, keep_if-All p xs)
  | inr e ↦ rw e (keep_if-All p xs)
]

after_marker_trans :
    (o : ListOptions) (k key : Bytes)
    → after_marker o k ≡ true
    → bytes_lt k key ≡ true
    → after_marker o key ≡ true
unfolding after_marker
after_marker_trans o k key h e = ground (arith, bytes_lt_trans o.marker k key)

module _ (metadata : List ObjectMeta) (keys : HasDistinctKeys metadata)
    (named : All HasKey metadata) where
  listed-IsStrictlySorted : (o : ListOptions) → IsStrictlySorted by_key (listed o metadata)
  unfolding kept
  listed-IsStrictlySorted o = keep_if-IsStrictlySorted by_key _ _ (
      sort_by-IsStrictlySorted by_key (λ a b c. bytes_lt_trans a.key b.key c.key) metadata
        (IsDistinct-keys metadata keys))

  listed-HasKey : (o : ListOptions) → All HasKey (listed o metadata)
  unfolding kept
  listed-HasKey o = All-keep_if HasKey _ _ (All-sort_by HasKey by_key metadata named)

  -- The next page begins where a page with room for `suc n` ends.
  listed-next :
      (o : ListOptions) (n : ℕ)
      → n < length (listed o metadata)
      → listed (record o { marker = last_key_of [] (take (suc n) (listed o metadata)) }) metadata
        ≡ drop (suc n) (listed o metadata)
  unfolding kept after
  listed-next o n h =
      keep_if-cong _ _ (λ m. after_marker_cons o k m.key k-ne-nil) sorted
      ∙ sym (keep_if-keep_if (after k) _ (λ m e. after_marker_trans o k m.key k-after e) sorted)
      ∙ keep_after_last n [] (listed o metadata) (listed-IsStrictlySorted o) h
    where
      sorted : List ObjectMeta
      sorted = sort_by by_key metadata

      k : Bytes
      k = last_key_of [] (take (suc n) (listed o metadata))

      k-ne-nil : k ≢ []
      k-ne-nil = last_key_of-All (λ c. c ≢ []) n [] (listed o metadata) h (listed-HasKey o)

      k-after : after_marker o k ≡ true
      k-after =
          last_key_of-All (λ c. after_marker o c ≡ true) n [] (listed o metadata) h
            (keep_if-All (λ m. after_marker o m.key) sorted)

map-take-drop {ℓ κ} :
    {A : Type ℓ} {B : Type κ} (f : A → B) (n : ℕ) (xs : List A)
    → map f (take n xs) ++ map f (drop n xs) ≡ map f xs
map-take-drop f zero xs = refl
map-take-drop f (suc n) [] = refl
map-take-drop f (suc n) (x ∷ xs) = ap (λ r. f x ∷ r) (map-take-drop f n xs)

take_all {ℓ} : {A : Type ℓ} (n : ℕ) (xs : List A) → length xs ≤ n → take n xs ≡ xs
take_all zero [] h = refl
take_all zero (x ∷ xs) h = absurd (omega arith)
take_all (suc n) [] h = refl
take_all (suc n) (x ∷ xs) h = ap (λ r. x ∷ r) (take_all n xs (omega arith))

take-drop_page :
    (room : ℕ) (ms : List ObjectMeta) (next : List ObjectInfo)
    → next ≡ map info_of (drop room ms)
    → map info_of (take room ms) ++ next ≡ map info_of ms
take-drop_page room ms next e = rw e (map-take-drop info_of room ms)

module _ (metadata : List ObjectMeta) (keys : HasDistinctKeys metadata)
    (named : All HasKey metadata) where
  listed-next_page :
      (o : ListOptions) (room : ℕ)
      → 0 < room
      → room < length (listed o metadata)
      → listed (record o { marker = last_key_of [] (take room (listed o metadata)) }) metadata
        ≡ drop room (listed o metadata)
  listed-next_page o zero p h = elim p [ ]
  listed-next_page o (suc n) p h = listed-next metadata keys named o n (omega arith)

  -- With no delimiter, following NextMarker from page to page collects each object after the first
  -- marker once, in key order; more pages than objects are enough. The keys are distinct, and none
  -- is empty.
  pub all_pages_lem :
      (fuel : ℕ) (o : ListOptions)
      → o.delimiter ≡ []
      → length (listed o metadata) < fuel
      → all_pages fuel o metadata ≡ map info_of (listed o metadata)
  unfolding all_pages
  all_pages_lem zero o flat h = elim h [ ]
  all_pages_lem (suc fuel) o flat h =
      rw (list_page_flat o metadata flat)
        (elim (Bool-cases (ltb (limit_of o) (length (listed o metadata)))) [
          | inl more ↦
              let next = listed-next_page o (limit_of o) (ground arith) (ground arith) in
              rw more (
                take-drop_page (limit_of o) (listed o metadata) _ (
                  all_pages_lem fuel _ flat
                    (ground (arith, ap length next, length-drop (limit_of o) (listed o metadata)))
                  ∙ ap (map info_of) next))
          | inr done ↦
              rw (done, append-nil) (ap (map info_of) (take_all (limit_of o) _ (ground arith)))
        ])

-- What holds of every key holds of the NextMarker of a truncated page.
pub next_marker-All :
    (P : Bytes → Type 0) (o : ListOptions) (metadata : List ObjectMeta)
    → o.delimiter ≡ []
    → All (λ m. P m.key) metadata
    → (list_page o metadata).is_truncated ≡ true
    → P (list_page o metadata).next_marker
unfolding kept
next_marker-All P o metadata flat h = rw (list_page_flat o metadata flat) (λ more. rw more (
    at_end (limit_of o) (ground arith) (ground arith)
      (All-keep_if (λ m. P m.key) _ _ (All-sort_by (λ m. P m.key) by_key metadata h))))
  where
    at_end :
        (room : ℕ)
        → 0 < room
        → room < length (listed o metadata)
        → All (λ m. P m.key) (listed o metadata)
        → P (last_key_of [] (take room (listed o metadata)))
    at_end zero p l a = elim p [ ]
    at_end (suc n) p l a = last_key_of-All P n [] (listed o metadata) (omega arith) a
