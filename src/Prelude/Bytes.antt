-- ===== src/Prelude/Bytes.antt =====
-- Go strings as lists of bytes, and the functions of package strings that the source calls.
pub mod Order
use Prim.Native.Char.{code}
use Prim.Native.Nat.{ℕ, suc}
use Prim.Native.String.{String}
use mathlib.Core.Path.{◌≡◌, refl}
use mathlib.Core.Logic.{◌↔◌, ◌≢◌, inl, inr}
use mathlib.Core.Bool.{Bool, true, false, ◌&&◌}
use mathlib.Core.List.{List, [], ◌∷◌, ◌++◌}
use mathlib.Core.Option.{Option, none, some}
use mathlib.Core.Option
use native.Mathlib.Omega.{arith}
use home_store.Prelude.Tests.{◌==◌, ==_iff, ltb, if◌then◌else◌}
use home_store.Prelude.Lists.{length, drop, list_eq, list_eq_iff, list_cases}

abbrev pub Bytes : Type 0
Bytes = List ℕ

-- The bytes of an ASCII literal.
abbrev pub codes : String → Bytes
codes String.[] = []
codes (String.◌∷◌ c s) = code c ∷ codes s

-- `a == b` on strings.
unfoldable pub bytes_eq : Bytes → Bytes → Bool
unfolding list_eq
bytes_eq = list_eq ◌==◌

pub bytes_eq_iff : (a b : Bytes) → (bytes_eq a b ≡ true) ↔ (a ≡ b)
unfolding bytes_eq
bytes_eq_iff = list_eq_iff ◌==◌ ==_iff

-- `a < b` on strings: lexicographic on bytes.
unfoldable pub bytes_lt : Bytes → Bytes → Bool
bytes_lt a [] = false
bytes_lt [] (y ∷ b) = true
bytes_lt (x ∷ a) (y ∷ b) = if ltb x y then true else if x == y then bytes_lt a b else false

-- strings.HasPrefix(s, prefix)
unfoldable pub has_prefix : Bytes → Bytes → Bool
has_prefix s [] = true
has_prefix [] (p ∷ ps) = false
has_prefix (c ∷ s) (p ∷ ps) = c == p && has_prefix s ps

-- strings.TrimPrefix(s, prefix)
unfoldable pub trim_prefix : Bytes → Bytes → Bytes
unfolding has_prefix
trim_prefix s prefix = if has_prefix s prefix then drop (length prefix) s else s

-- strings.Index(s, sep): `none` is -1.
unfoldable pub index : Bytes → Bytes → Option ℕ
unfolding has_prefix
index [] sep = if has_prefix [] sep then some 0 else none
index (c ∷ s) sep = if has_prefix (c ∷ s) sep then some 0 else Option.map suc (index s sep)

-- strings.Split(s, sep) at a separator of one byte.
abbrev push_head : ℕ → List Bytes → List Bytes
push_head c [] = (c ∷ []) ∷ []
push_head c (p ∷ ps) = (c ∷ p) ∷ ps

unfoldable pub split : ℕ → Bytes → List Bytes
split sep [] = [] ∷ []
split sep (c ∷ s) = let rest = split sep s in if c == sep then [] ∷ rest else push_head c rest

-- strings.SplitN(s, sep, 2) at a separator of one byte: the first part, and the rest if there is
-- a separator.
unfoldable pub split_once : ℕ → Bytes → Bytes × Option Bytes
split_once sep [] = ([], none)
split_once sep (c ∷ s) =
    let (head, rest) = split_once sep s in if c == sep then ([], some s) else (c ∷ head, rest)

-- strings.Join(parts, sep)
abbrev pub join : ℕ → List Bytes → Bytes
join sep [] = []
join sep (p ∷ []) = p
join sep (p ∷ q ∷ ps) = p ++ sep ∷ join sep (q ∷ ps)

-- The byte does not occur.
abbrev pub lacks : ℕ → Bytes → Bool
lacks sep [] = true
lacks sep (c ∷ s) = if c == sep then false else lacks sep s

join-push_head :
    (sep c : ℕ) (ps : List Bytes) → ps ≢ [] → join sep (push_head c ps) ≡ c ∷ join sep ps
join-push_head sep c [] h = absurd (h refl)
join-push_head sep c (p ∷ []) h = refl
join-push_head sep c (p ∷ q ∷ ps) h = refl

split-ne-nil : (sep : ℕ) (s : Bytes) → split sep s ≢ []
unfolding split
split-ne-nil sep [] e = cc
split-ne-nil sep (c ∷ s) e = elim (list_cases (split sep s)) [
  | inl e' ↦ split-ne-nil sep s e'
  | inr (p, ps, e') ↦ ground (arith, e')
]

pub join-split : (sep : ℕ) (s : Bytes) → join sep (split sep s) ≡ s
unfolding split
join-split sep [] = refl
join-split sep (c ∷ s) = elim (list_cases (split sep s)) [
  | inl e ↦ absurd (split-ne-nil sep s e)
  | inr (p, ps, e) ↦
      ground (arith, e, join-split sep s, join-push_head sep c (split sep s) (split-ne-nil sep s))
]

pub split-lacks : (sep : ℕ) (s : Bytes) → lacks sep s ≡ true → split sep s ≡ s ∷ []
unfolding split
split-lacks sep [] h = refl
split-lacks sep (c ∷ s) h = ground (arith, split-lacks sep s)

pub split-append :
    (sep : ℕ) (a s : Bytes) → lacks sep a ≡ true → split sep (a ++ sep ∷ s) ≡ a ∷ split sep s
unfolding split
split-append sep [] s h = ground arith
split-append sep (c ∷ a) s h = ground (arith, split-append sep a s)
