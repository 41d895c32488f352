-- ===== src/Http/Numbers.antt =====
-- strconv.Atoi on a 64-bit machine.
pub mod RoundTrip
use home_store.Prelude.{
  ℕ, ◌+◌, ◌-◌, ◌*◌, leb, ltb, ◌==◌, ◌&&◌, Bool, Option, none, some, [], ◌∷◌, if◌then◌else◌,
}
use home_store.Prelude.Bytes.{Bytes}

-- `negsuc n` is -(n + 1).
pub data ℤ : Type 0 where
  pos negsuc : ℕ → ℤ

-- The value of a text of digits that follows the number `n`.
unfoldable pub digits_from : ℕ → Bytes → Option ℕ
digits_from n [] = some n
digits_from n (c ∷ s) =
    let rest = digits_from (n * 10 + (c - b'0')) s in
    if leb b'0' c && leb c b'9' then rest else none

-- At least one digit.
abbrev pub magnitude : Bytes → Option ℕ
magnitude [] = none
magnitude (c ∷ s) = digits_from 0 (c ∷ s)

abbrev pub max_int : ℕ
max_int = 9223372036854775807

abbrev pub in_range : ℕ → Option ℕ → Option ℤ
in_range most none = none
in_range most (some n) = if leb n most then some (pos n) else none

abbrev pub negated : Option ℕ → Option ℤ
negated none = none
negated (some n) =
    if n == 0 then some (pos 0) else if leb n (max_int + 1) then some (negsuc (n - 1)) else none

-- A sign, then digits; a value out of range is an error.
unfoldable pub atoi : Bytes → Option ℤ
unfolding digits_from
atoi [] = none
atoi (c ∷ s) =
    if c == b'-'
    then negated (magnitude s)
    else in_range max_int (if c == b'+' then magnitude s else magnitude (c ∷ s))
