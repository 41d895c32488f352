-- ===== src/Prelude/Sort/Sorted.antt =====
-- The result of a sort is ordered, and is a permutation of its input.
use mathlib.Core.Path.{◌≡◌, refl, sym, ◌∙◌}
use mathlib.Core.Logic.{inl, inr}
use mathlib.Core.Bool.{Bool, true, false, false≢true}
use mathlib.Core.List.{List, [], ◌∷◌, Perm}
use mathlib.Core.List.Perm
use home_store.Prelude.Tests.{Bool-cases}
use home_store.Prelude.Lists.{All}
use home_store.Prelude.Sort.{insert_by, sort_by}

module _ {ℓ} {A : Type ℓ} where
  -- No item is less than one before it.
  abbrev pub IsSorted : (A → A → Bool) → List A → Type ℓ
  IsSorted less [] = Unit
  IsSorted less (x ∷ xs) = All (λ y. less y x ≡ false) xs × IsSorted less xs

  -- Every item is less than those after it.
  abbrev pub IsStrictlySorted : (A → A → Bool) → List A → Type ℓ
  IsStrictlySorted less [] = Unit
  IsStrictlySorted less (x ∷ xs) = All (λ y. less x y ≡ true) xs × IsStrictlySorted less xs

  -- Of two items one is less than the other.
  abbrev pub IsDistinct : (A → A → Bool) → List A → Type ℓ
  IsDistinct less [] = Unit
  IsDistinct less (x ∷ xs) = All (λ y. less x y ≡ false → less y x ≡ true) xs × IsDistinct less xs

pub insert_by-perm {ℓ} :
    {A : Type ℓ} (less : A → A → Bool) (x : A) (xs : List A) → Perm (insert_by less x xs) (x ∷ xs)
unfolding insert_by
insert_by-perm less x [] = Perm.refl _
insert_by-perm less x (y ∷ ys) = elim (Bool-cases (less y x)) [
  | inl e ↦ rw e (Perm.trans (Perm.cons y (insert_by-perm less x ys)) (Perm.swap x y ys))
  | inr e ↦ rw e (Perm.refl _)
]

pub sort_by-perm {ℓ} : {A : Type ℓ} (less : A → A → Bool) (xs : List A) → Perm (sort_by less xs) xs
unfolding sort_by
sort_by-perm less [] = Perm.refl _
sort_by-perm less (x ∷ xs) =
    Perm.trans (insert_by-perm less x (sort_by less xs)) (Perm.cons x (sort_by-perm less xs))

All-insert_by {ℓ κ} :
    {A : Type ℓ} (P : A → Type κ) (less : A → A → Bool) (x : A) (xs : List A)
    → P x
    → All P xs
    → All P (insert_by less x xs)
unfolding insert_by
All-insert_by P less x [] h hs = (h, tt)
All-insert_by P less x (y ∷ ys) h hs = elim (Bool-cases (less y x)) [
  | inl e ↦ rw e (hs.0, All-insert_by P less x ys h hs.1)
  | inr e ↦ rw e (h, hs)
]

pub All-sort_by {ℓ κ} :
    {A : Type ℓ} (P : A → Type κ) (less : A → A → Bool) (xs : List A)
    → All P xs
    → All P (sort_by less xs)
unfolding sort_by
All-sort_by P less [] h = tt
All-sort_by P less (x ∷ xs) h = All-insert_by P less x _ h.0 (All-sort_by P less xs h.1)

pub All-mono {ℓ κ μ} :
    {A : Type ℓ} (P : A → Type κ) (Q : A → Type μ) (f : (a : A) → P a → Q a) (xs : List A)
    → All P xs
    → All Q xs
All-mono P Q f [] h = tt
All-mono P Q f (x ∷ xs) h = (f x h.0, All-mono P Q f xs h.1)

-- For an asymmetric test whose "not less" is transitive.
module _ {ℓ} {A : Type ℓ} (less : A → A → Bool)
    (asymm : (a b : A) → less a b ≡ true → less b a ≡ false)
    (le_trans : (a b c : A) → less b a ≡ false → less c b ≡ false → less c a ≡ false) where
  insert_by-IsSorted :
      (x : A) (xs : List A) → IsSorted less xs → IsSorted less (insert_by less x xs)
  unfolding insert_by
  insert_by-IsSorted x [] h = (tt, tt)
  insert_by-IsSorted x (y ∷ ys) h = elim (Bool-cases (less y x)) [
    | inl e ↦ rw e (
      All-insert_by (λ z. less z y ≡ false) less x ys (asymm y x e) h.0,
      insert_by-IsSorted x ys h.1,
    )
    | inr e ↦ rw e ((e, All-mono _ _ (λ z k. le_trans x y z e k) ys h.0), h)
  ]

  -- The result of sort.Slice is in order.
  pub sort_by-IsSorted : (xs : List A) → IsSorted less (sort_by less xs)
  unfolding sort_by
  sort_by-IsSorted [] = tt
  sort_by-IsSorted (x ∷ xs) = insert_by-IsSorted x _ (sort_by-IsSorted xs)

module _ {ℓ} {A : Type ℓ} (less : A → A → Bool)
    (trans : (a b c : A) → less a b ≡ true → less b c ≡ true → less a c ≡ true) where
  insert_by-IsStrictlySorted :
      (x : A) (xs : List A)
      → All (λ y. less x y ≡ false → less y x ≡ true) xs
      → IsStrictlySorted less xs
      → IsStrictlySorted less (insert_by less x xs)
  unfolding insert_by
  insert_by-IsStrictlySorted x [] h s = (tt, tt)
  insert_by-IsStrictlySorted x (y ∷ ys) h s = elim (Bool-cases (less y x)) [
    | inl e ↦ rw e (
      All-insert_by (λ z. less y z ≡ true) less x ys e s.0,
      insert_by-IsStrictlySorted x ys h.1 s.1,
    )
    | inr e ↦
        let below = below_head (less x y) refl e in
        rw e ((below, All-mono _ _ (λ z k. trans x y z below k) ys s.0), s)
  ]
    where
      below_head : (b : Bool) → less x y ≡ b → less y x ≡ false → less x y ≡ true
      below_head true q e = q
      below_head false q e = absurd (false≢true (sym e ∙ h.0 q))

  -- Where no two items are equal, the result of a sort is strictly in order.
  pub sort_by-IsStrictlySorted :
      (xs : List A) → IsDistinct less xs → IsStrictlySorted less (sort_by less xs)
  unfolding sort_by
  sort_by-IsStrictlySorted [] h = tt
  sort_by-IsStrictlySorted (x ∷ xs) h =
      insert_by-IsStrictlySorted x (sort_by less xs) (All-sort_by _ less xs h.0)
        (sort_by-IsStrictlySorted xs h.1)
