-- ===== src/Fs/Listing/Bounds.antt =====
-- How many items a page of ListObjects has, with any delimiter.
use home_store.Prelude.{
  ℕ, ◌+◌, ◌≤◌, ◌≡◌, refl, ◌∙◌, true, false, Option, none, some, List, [], ◌∷◌, arith, ◌==◌, length,
  length-append, any, Bool-cases, inl, inr,
}
use home_store.Prelude.Bytes.{Bytes, bytes_eq}
use home_store.Prelude.Sort.{sort_by}
use home_store.Storage.{ObjectMeta, ListOptions}
use home_store.Fs.Listing.{
  Page, Verdict, go, stop, info_of, common_prefix, after_marker, page_step, page_loop, place,
  list_page, limit_of, by_key, no_page,
}

-- The count is that of the items, and is at most the limit; a truncated page is full.
record IsWithin (max : ℕ) (s : Page) : Type 0 where
  counted : length s.objects + length s.common_prefixes ≡ s.count
  bound : s.count ≤ max
  filled : s.is_truncated ≡ true → s.count ≡ max

abbrev AfterWithin : ℕ → Verdict → Type 0
AfterWithin max (go s) = IsWithin max s
AfterWithin max (stop s) = IsWithin max s

-- Before the loop ends, no page is truncated.
abbrev IsOpen : Verdict → Type 0
IsOpen (go s) = s.is_truncated ≡ false
IsOpen (stop s) = Unit

place-IsWithin :
    (max : ℕ) (s : Page) (m : ObjectMeta) (c : Option Bytes)
    → s.is_truncated ≡ false
    → IsWithin max s
    → AfterWithin max (place max s m c) × IsOpen (place max s m c)
place-IsWithin max s m none t h = elim (Bool-cases (s.count == max)) [
  | inl e ↦ rw e (record { counted = h.counted; bound = h.bound; filled = λ u. ground arith }, tt)
  | inr e ↦ rw e (
    record {
      counted = ground (arith, length-append s.objects (info_of m ∷ []), h.counted);
      bound = ground (arith, h.bound);
      filled = λ u. cc;
    },
    t,
  )
]
place-IsWithin max s m (some p) t h = elim (Bool-cases (any (λ q. bytes_eq q p) s.seen)) [
  | inl a ↦ rw a (h, t)
  | inr a ↦ elim (Bool-cases (s.count == max)) [
    | inl e ↦
        rw (a, e) (record { counted = h.counted; bound = h.bound; filled = λ u. ground arith }, tt)
    | inr e ↦
        rw (a, e)
          (
            record {
              counted = ground (arith, length-append s.common_prefixes (p ∷ []), h.counted);
              bound = ground (arith, h.bound);
              filled = λ u. cc;
            },
            t,
          )
  ]
]

page_step-IsWithin :
    (o : ListOptions) (max : ℕ) (s : Page) (m : ObjectMeta)
    → s.is_truncated ≡ false
    → IsWithin max s
    → AfterWithin max (page_step o max s m) × IsOpen (page_step o max s m)
unfolding page_step
page_step-IsWithin o max s m t h = elim (Bool-cases (after_marker o m.key)) [
  | inl a ↦ rw a (place-IsWithin max s m (common_prefix o m.key) t h)
  | inr a ↦ rw a (h, t)
]

page_loop-IsWithin :
    (o : ListOptions) (max : ℕ) (s : Page) (ms : List ObjectMeta)
    → s.is_truncated ≡ false
    → IsWithin max s
    → IsWithin max (page_loop o max s ms)
unfolding page_loop
page_loop-IsWithin o max s [] t h = h
page_loop-IsWithin o max s (m ∷ ms) t h =
    next (page_step o max s m) (λ s'. page_loop-IsWithin o max s' ms)
      (page_step-IsWithin o max s m t h).0 (page_step-IsWithin o max s m t h).1
  where
    next :
        (v : Verdict)
        → ((s' : Page)
            → s'.is_truncated ≡ false
            → IsWithin max s'
            → IsWithin max (page_loop o max s' ms))
        → AfterWithin max v
        → IsOpen v
        → IsWithin max (elim v [ go s' ↦ page_loop o max s' ms | stop s' ↦ s' ])
    next (go s') rest h t = rest s' t h
    next (stop s') rest h t = h

-- A page of ListObjects, with any prefix, delimiter and marker, has at most as many objects and
-- common prefixes together as its limit (the max-keys of the request, or 1000 where that is 0), and
-- exactly as many when it is truncated.
pub list_page-bounds :
    (o : ListOptions) (metadata : List ObjectMeta)
    → let r = list_page o metadata in
      (length r.objects + length r.common_prefixes ≤ limit_of o)
      × (r.is_truncated ≡ true → length r.objects + length r.common_prefixes ≡ limit_of o)
unfolding list_page
list_page-bounds o metadata =
    let w =
      page_loop-IsWithin o (limit_of o) no_page (sort_by by_key metadata) refl
        (record { counted = refl; bound = omega arith; filled = λ u. cc }) in
    (ground (arith, w.counted, w.bound), λ t. w.counted ∙ w.filled t)
