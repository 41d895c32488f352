-- ===== src/Storage/Names/Shape.antt =====
-- The three loops of IsValidBucketName, each against what it looks for.
use home_store.Prelude.{
  ℕ, suc, ◌+◌, ◌<◌, ◌≡◌, refl, ap, ◌≢◌, ◌⊎◌, true, false, [], ◌∷◌, ◌++◌, arith, All, length,
}
use home_store.Prelude.Bytes.{Bytes}
use home_store.Storage.Names.{has_double_dot, is_digit, is_lower, all_name_chars}

-- The bytes that may stand anywhere, and those that may stand at neither end.
abbrev pub IsAlnum : ℕ → Type 0
IsAlnum c = (is_lower c ≡ true) ⊎ (is_digit c ≡ true)

abbrev pub IsNameByte : ℕ → Type 0
IsNameByte c = IsAlnum c ⊎ ((c ≡ b'-') ⊎ (c ≡ b'.'))

pub has_double_dot-append : (a b : Bytes) → has_double_dot (a ++ b'.' ∷ b'.' ∷ b) ≡ true
unfolding has_double_dot
has_double_dot-append [] b = refl
has_double_dot-append (c ∷ []) b = ground arith
has_double_dot-append (c ∷ d ∷ a) b = ground (arith, has_double_dot-append (d ∷ a) b)

pub no_double_dot :
    (s : Bytes) → ((a b : Bytes) → s ≢ a ++ b'.' ∷ b'.' ∷ b) → has_double_dot s ≡ false
unfolding has_double_dot
no_double_dot [] h = refl
no_double_dot (c ∷ []) h = refl
no_double_dot (c ∷ d ∷ s) h =
    ground (arith, no_double_dot (d ∷ s) (λ a b e. h (c ∷ a) b (ap (λ t. c ∷ t) e)), h [] s)

-- Positions before the last one: every byte is a name byte, and the first is not a mark.
pub all_name_chars-All : (n i : ℕ) (s : Bytes) → all_name_chars n i s ≡ true → All IsNameByte s
unfolding all_name_chars
all_name_chars-All n i [] h = tt
all_name_chars-All n i (c ∷ s) h = (ground arith, all_name_chars-All n (suc i) s (ground arith))

pub all_name_chars-first :
    (n : ℕ) (c : ℕ) (s : Bytes) → all_name_chars n 0 (c ∷ s) ≡ true → IsAlnum c
unfolding all_name_chars
all_name_chars-first n c s h = ground arith

pub all_name_chars-last :
    (n i : ℕ) (s : Bytes) (c : ℕ)
    → i + length s + 1 ≡ n
    → all_name_chars n i (s ++ c ∷ []) ≡ true
    → IsAlnum c
unfolding all_name_chars
all_name_chars-last n i [] c e h = ground arith
all_name_chars-last n i (d ∷ s) c e h =
    all_name_chars-last n (suc i) s c (omega arith) (ground arith)

-- Between the ends a name byte is enough; `last` speaks of the last byte.
pub all_name_chars_of :
    (n i : ℕ) (s : Bytes)
    → 0 < i
    → i + length s ≡ n
    → All IsNameByte s
    → ((t : Bytes) (c : ℕ) → s ≡ t ++ c ∷ [] → IsAlnum c)
    → all_name_chars n i s ≡ true
unfolding all_name_chars
all_name_chars_of n i [] p e h last = refl
all_name_chars_of n i (c ∷ []) p e h last = ground (arith, last [] c refl)
all_name_chars_of n i (c ∷ d ∷ s) p e h last = ground (
  arith,
  all_name_chars_of n (suc i) (d ∷ s) (omega arith) (omega arith) h.1
      (λ t x q. last (c ∷ t) x (ap (λ u. c ∷ u) q)),
)
