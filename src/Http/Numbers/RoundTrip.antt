-- ===== src/Http/Numbers/RoundTrip.antt =====
-- strconv: the text of a number is read as the number.
use home_store.Prelude.{
  ℕ, zero, suc, ◌/◌, ◌<◌, ◌≤◌, ◌≡◌, ◌≢◌, sym, ap, ◌∙◌, arith, leb, ltb, ◌&&◌, true, Option, some,
  [], ◌∷◌, Bool-cases, inl, inr,
}
use home_store.Prelude.Bytes.{Bytes}
use home_store.Fs.Parts.{itoa, itoa_loop}
use home_store.Http.Numbers.{ℤ, pos, digits_from, in_range, atoi, max_int}

-- The text begins with a digit.
HasDigit : Bytes → Type 0
HasDigit [] = ⊥
HasDigit (c ∷ s) = (leb b'0' c && leb c b'9') ≡ true

itoa_loop-HasDigit : (fuel n : ℕ) (acc : Bytes) → n < fuel → HasDigit (itoa_loop fuel n acc)
unfolding itoa_loop HasDigit
itoa_loop-HasDigit zero n acc h = elim h [ ]
itoa_loop-HasDigit (suc fuel) n acc h = elim (Bool-cases (ltb n 10)) [
  | inl e ↦ rw e (ground arith)
  | inr e ↦ rw e (itoa_loop-HasDigit fuel (n / 10) _ (ground arith))
]

digits_from-itoa_loop :
    (fuel n : ℕ) (acc : Bytes) → n < fuel → digits_from 0 (itoa_loop fuel n acc) ≡ digits_from n acc
unfolding itoa_loop digits_from
digits_from-itoa_loop zero n acc h = elim h [ ]
digits_from-itoa_loop (suc fuel) n acc h = elim (Bool-cases (ltb n 10)) [
  | inl e ↦ rw e (ground arith)
  | inr e ↦ rw (e, digits_from-itoa_loop fuel (n / 10) _ (ground arith)) (ground arith)
]

atoi-digits : (s : Bytes) → HasDigit s → atoi s ≡ in_range max_int (digits_from 0 s)
unfolding atoi HasDigit
atoi-digits [] h = absurd h
atoi-digits (c ∷ s) h = ground arith

digit-ne-nil : (s : Bytes) → HasDigit s → s ≢ []
unfolding HasDigit
digit-ne-nil [] h e = h
digit-ne-nil (c ∷ s) h e = cc e

-- The text of a number is not empty.
pub itoa-ne-nil : (n : ℕ) → itoa n ≢ []
unfolding itoa
itoa-ne-nil n =
    digit-ne-nil (itoa_loop (suc n) n []) (itoa_loop-HasDigit (suc n) n [] (omega arith))

-- strconv.Atoi reads what strconv.Itoa writes, up to the largest int of a 64-bit machine.
pub atoi-itoa : (n : ℕ) → n ≤ max_int → atoi (itoa n) ≡ some (pos n)
unfolding itoa digits_from
atoi-itoa n h =
    atoi-digits (itoa_loop (suc n) n []) (itoa_loop-HasDigit (suc n) n [] (omega arith))
    ∙ rw (digits_from-itoa_loop (suc n) n [] (omega arith)) (ground arith)

abbrev value_of : Option ℤ → ℕ
value_of (some (pos n)) = n
value_of _ = 0

-- Different numbers have different texts.
pub itoa-injective : (m n : ℕ) → m ≤ max_int → n ≤ max_int → itoa m ≡ itoa n → m ≡ n
itoa-injective m n h k e =
    sym (ap value_of (atoi-itoa m h)) ∙ ap (λ s. value_of (atoi s)) e ∙ ap value_of (atoi-itoa n k)
