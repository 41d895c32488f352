-- ===== src/Fs/Listing/Flat.antt =====
-- ListObjects with no delimiter, against filtering and cutting the sorted list.
use mathlib.Core.List.{append_assoc, append-nil}
use home_store.Prelude.{
  ℕ, zero, suc, ◌+◌, ◌<◌, ◌≡◌, refl, ◌∙◌, true, false, none, List, [], ◌∷◌, ◌++◌, map, arith, ltb,
  if◌then◌else◌, length, take, keep_if, Bool-cases, inl, inr,
}
use home_store.Prelude.Bytes.{Bytes}
use home_store.Prelude.Sort.{sort_by}
use home_store.Storage.{ObjectMeta, ListOptions, ListResult}
use home_store.Fs.Listing.{
  Page, go, stop, info_of, common_prefix, after_marker, page_step, page_loop, add_object, full,
  list_page, limit_of, by_key, no_page,
}

-- What the first test lets through.
unfoldable pub kept : ListOptions → List ObjectMeta → List ObjectMeta
unfolding keep_if
kept o = keep_if (λ m. after_marker o m.key)

-- The key of the last item, or `d`.
abbrev pub last_key_of : Bytes → List ObjectMeta → Bytes
last_key_of d [] = d
last_key_of d (m ∷ ms) = last_key_of m.key ms

common_prefix_flat : (o : ListOptions) (key : Bytes) → o.delimiter ≡ [] → common_prefix o key ≡ none
unfolding common_prefix
common_prefix_flat o key h = rw h

-- The three outcomes of a round where no key is collapsed.
pub page_step-skip :
    (o : ListOptions) (max : ℕ) (s : Page) (m : ObjectMeta)
    → after_marker o m.key ≡ false
    → page_step o max s m ≡ go s
unfolding page_step
page_step-skip o max s m a = rw a

pub page_step-object :
    (o : ListOptions) (max : ℕ) (s : Page) (m : ObjectMeta)
    → common_prefix o m.key ≡ none
    → after_marker o m.key ≡ true
    → s.count < max
    → page_step o max s m ≡ go (add_object m s)
unfolding page_step
page_step-object o max s m c a h = rw (a, c) (ground arith)

pub page_step-full :
    (o : ListOptions) (max : ℕ) (s : Page) (m : ObjectMeta)
    → common_prefix o m.key ≡ none
    → after_marker o m.key ≡ true
    → s.count ≡ max
    → page_step o max s m ≡ stop (full s)
unfolding page_step
page_step-full o max s m c a h = rw (a, c) (ground arith)

ltb-suc : (a b : ℕ) → ltb a b ≡ ltb (suc a) (suc b)
ltb-suc a b = ground arith

record IsFlat (ms : List ObjectMeta) (room : ℕ) (s t : Page) : Type 0 where
  objects : t.objects ≡ s.objects ++ map info_of (take room ms)
  prefixes : t.common_prefixes ≡ s.common_prefixes
  truncated : t.is_truncated ≡ ltb room (length ms)
  last_key : t.last_key ≡ last_key_of s.last_key (take room ms)

module _ (o : ListOptions) (max : ℕ) (flat : o.delimiter ≡ []) where
  page_loop-IsFlat :
      (ms : List ObjectMeta) (s : Page) (room : ℕ)
      → s.count + room ≡ max
      → s.is_truncated ≡ false
      → IsFlat (kept o ms) room s (page_loop o max s ms)
  unfolding page_loop kept
  page_loop-IsFlat [] s zero e t = record {
    objects = simp append-nil;
    prefixes = refl;
    truncated = t;
    last_key = refl;
  }
  page_loop-IsFlat [] s (suc room) e t = record {
    objects = simp append-nil;
    prefixes = refl;
    truncated = ground arith;
    last_key = refl;
  }
  page_loop-IsFlat (m ∷ ms) s zero e t = elim (Bool-cases (after_marker o m.key)) [
    | inr a ↦ rw (a, page_step-skip o max s m a, page_loop) (page_loop-IsFlat ms s zero e t)
    | inl a ↦
        rw
          (a, page_step-full o max s m (common_prefix_flat o m.key flat) a (omega arith), page_loop)
          (record {
            objects = simp append-nil;
            prefixes = refl;
            truncated = ground arith;
            last_key = refl;
          })
  ]
  page_loop-IsFlat (m ∷ ms) s (suc room) e t = elim (Bool-cases (after_marker o m.key)) [
    | inr a ↦ rw (a, page_step-skip o max s m a, page_loop) (page_loop-IsFlat ms s (suc room) e t)
    | inl a ↦
        let ih = page_loop-IsFlat ms (add_object m s) room (omega arith) t in
        rw
          (
            a,
            page_step-object o max s m (common_prefix_flat o m.key flat) a (omega arith),
            page_loop,
          )
          (record {
            objects = ih.objects ∙ append_assoc s.objects _ _;
            prefixes = ih.prefixes;
            truncated = ih.truncated ∙ ltb-suc room _;
            last_key = ih.last_key;
          })
  ]

-- The metadata in key order, from the marker on.
abbrev pub listed : ListOptions → List ObjectMeta → List ObjectMeta
listed o metadata = kept o (sort_by by_key metadata)

-- The first `limit` of the sorted metadata after the marker; the page is truncated exactly when
-- there are more, and then names its last key.
abbrev pub flat_page : ListOptions → List ObjectMeta → ListResult
flat_page o metadata =
    let rest = listed o metadata in
    let more = ltb (limit_of o) (length rest) in
    record {
      objects = map info_of (take (limit_of o) rest);
      common_prefixes = [];
      is_truncated = more;
      next_marker = if more then last_key_of [] (take (limit_of o) rest) else [];
    }

-- With no delimiter, ListObjects returns the first `limit` of the sorted metadata after the marker;
-- the page is truncated exactly when there are more, and then names its last key.
pub list_page_flat :
    (o : ListOptions) (metadata : List ObjectMeta)
    → o.delimiter ≡ []
    → list_page o metadata ≡ flat_page o metadata
unfolding list_page
list_page_flat o metadata h =
    let f =
      page_loop-IsFlat o (limit_of o) h (sort_by by_key metadata) no_page (limit_of o) (omega arith)
        refl in
    ground (arith, f.objects, f.prefixes, f.truncated, f.last_key)
