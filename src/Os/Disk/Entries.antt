-- ===== src/Os/Disk/Entries.antt =====
-- os.ReadDir of a directory that has an entry.
use home_store.Prelude.{
  ◌≡◌, refl, ap, Bool, Bool-cases, false, Option, none, some, List, [], ◌∷◌, ◌++◌, arith, inl, inr,
}
use home_store.Prelude.Bytes.{Bytes, bytes_eq_iff}
use home_store.Prelude.Sort.{insert_by, sort_by}
use home_store.Os.Path.{FilePath, path_eq, path_eq_iff}
use home_store.Os.Disk.{Disk, Node, lookup, child_name, children, entries}

-- The list has an item.
abbrev pub IsFull {ℓ} : {A : Type ℓ} → List A → Type 0
IsFull [] = ⊥
IsFull (x ∷ xs) = Unit

insert_by-IsFull {ℓ} :
    {A : Type ℓ} (less : A → A → Bool) (x : A) (ys : List A) → IsFull (insert_by less x ys)
unfolding insert_by
insert_by-IsFull less x [] = tt
insert_by-IsFull less x (y ∷ ys) = elim (Bool-cases (less y x)) [
  | inl e ↦ rw e tt
  | inr e ↦ rw e tt
]

sort_by-IsFull {ℓ} :
    {A : Type ℓ} (less : A → A → Bool) (xs : List A) → IsFull xs → IsFull (sort_by less xs)
unfolding sort_by
sort_by-IsFull less (x ∷ xs) h = insert_by-IsFull less x (sort_by less xs)
sort_by-IsFull less [] h = h

child_name_self : (p : FilePath) (c : Bytes) → child_name p (p ++ c ∷ []) ≡ some c
unfolding child_name
child_name_self [] c = refl
child_name_self (x ∷ p) c = ground (arith, bytes_eq_iff x x, child_name_self p c)

-- Where a path below `p` has an entry, `p` has one.
children-IsFull :
    (p : FilePath) (c : Bytes) (n : Node) (d : Disk)
    → lookup (p ++ c ∷ []) d ≡ some n
    → IsFull (children p d)
unfolding lookup children
children-IsFull p c n [] h = cc
children-IsFull p c n ((q, m) ∷ d) h = next (child_name p q) refl (children-IsFull p c n d)
  where
    other : child_name p q ≡ none → path_eq q (p ++ c ∷ []) ≡ false
    other e = elim (Bool-cases (path_eq q (p ++ c ∷ []))) [
      | inl t ↦ cc (e, child_name_self p c, ap (child_name p) ((path_eq_iff q (p ++ c ∷ [])).0 t))
      | inr f ↦ f
    ]

    next :
        (o : Option Bytes)
        → child_name p q ≡ o
        → (lookup (p ++ c ∷ []) d ≡ some n → IsFull (children p d))
        → IsFull (elim o [ none ↦ children p d | some x ↦ (x, m) ∷ children p d ])
    next (some x) e rest = tt
    next none e rest = let f = other e in rest (ground (arith, f))

pub entries-IsFull :
    (p : FilePath) (c : Bytes) (n : Node) (d : Disk)
    → lookup (p ++ c ∷ []) d ≡ some n
    → IsFull (entries p d)
unfolding entries
entries-IsFull p c n d h = sort_by-IsFull _ (children p d) (children-IsFull p c n d h)
