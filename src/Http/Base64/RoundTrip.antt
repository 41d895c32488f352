-- ===== src/Http/Base64/RoundTrip.antt =====
-- base64.RawURLEncoding: what is encoded is decoded.
use home_store.Prelude.{ℕ, ◌+◌, ◌*◌, ◌/◌, ◌%◌, ◌<◌, ◌≡◌, refl, arith, some, [], ◌∷◌, All}
use home_store.Prelude.Bytes.{Bytes}
use home_store.Http.Base64.{
  encode_digit, decode_digit, encode, drop_line_ends, decode_groups, decode,
}

abbrev pub IsByte : ℕ → Type 0
IsByte n = n < 256

decode-encode_digit : (n : ℕ) → n < 64 → decode_digit (encode_digit n) ≡ some n
unfolding encode_digit decode_digit
decode-encode_digit n h = ground arith

-- A character is no line end.
digit_stays :
    (n : ℕ) (s : Bytes)
    → n < 64
    → drop_line_ends (encode_digit n ∷ s) ≡ encode_digit n ∷ drop_line_ends s
unfolding encode_digit drop_line_ends
digit_stays n s h = ground arith

module _ (a : ℕ) (ha : a < 256) where
  first : a / 4 < 64
  first = omega arith

  last : a % 4 * 16 < 64
  last = omega arith

  last_of_two : a % 16 * 4 < 64
  last_of_two = omega arith

  last_of_three : a % 64 < 64
  last_of_three = omega arith

  module _ (b : ℕ) (hb : b < 256) where
    second : a % 4 * 16 + b / 16 < 64
    second = omega arith

    third : a % 16 * 4 + b / 64 < 64
    third = omega arith

    first_back : a / 4 * 4 + (a % 4 * 16 + b / 16) / 16 ≡ a
    first_back = omega arith

    second_back : (a % 4 * 16 + b / 16) % 16 * 16 + b % 16 * 4 / 4 ≡ b
    second_back = omega arith

    module _ (c : ℕ) (hc : c < 256) where
      middle_back : (a % 4 * 16 + b / 16) % 16 * 16 + (b % 16 * 4 + c / 64) / 4 ≡ b
      middle_back = omega arith

      third_back : (b % 16 * 4 + c / 64) % 4 * 64 + c % 64 ≡ c
      third_back = omega arith

  one_back : a / 4 * 4 + a % 4 * 16 / 16 ≡ a
  one_back = omega arith

encode-stays : (s : Bytes) → All IsByte s → drop_line_ends (encode s) ≡ encode s
unfolding encode drop_line_ends
encode-stays [] h = refl
encode-stays (a ∷ []) h =
    rw (digit_stays (a / 4) _ (first a h.0), digit_stays _ _ (last a h.0)) refl
encode-stays (a ∷ b ∷ []) h =
    rw
      (
        digit_stays _ _ (first a h.0),
        digit_stays _ _ (second a h.0 b h.1.0),
        digit_stays _ _ (last_of_two b h.1.0),
      )
      refl
encode-stays (a ∷ b ∷ c ∷ s) h =
    rw
      (
        digit_stays _ _ (first a h.0),
        digit_stays _ _ (second a h.0 b h.1.0),
        digit_stays _ _ (third b h.1.0 c h.1.1.0),
        digit_stays _ _ (last_of_three c h.1.1.0),
        encode-stays s h.1.1.1,
      )
      refl

decode_groups-encode : (s : Bytes) → All IsByte s → decode_groups (encode s) ≡ some s
unfolding encode decode_groups
decode_groups-encode [] h = refl
decode_groups-encode (a ∷ []) h =
    rw (decode-encode_digit _ (first a h.0), decode-encode_digit _ (last a h.0), one_back a h.0)
      refl
decode_groups-encode (a ∷ b ∷ []) h =
    rw
      (
        decode-encode_digit _ (first a h.0),
        decode-encode_digit _ (second a h.0 b h.1.0),
        decode-encode_digit _ (last_of_two b h.1.0),
        first_back a h.0 b h.1.0,
        second_back a h.0 b h.1.0,
      )
      refl
decode_groups-encode (a ∷ b ∷ c ∷ s) h =
    rw
      (
        decode-encode_digit _ (first a h.0),
        decode-encode_digit _ (second a h.0 b h.1.0),
        decode-encode_digit _ (third b h.1.0 c h.1.1.0),
        decode-encode_digit _ (last_of_three c h.1.1.0),
        decode_groups-encode s h.1.1.1,
        first_back a h.0 b h.1.0,
        middle_back a h.0 b h.1.0 c h.1.1.0,
        third_back a h.0 b h.1.0 c h.1.1.0,
      )
      refl

-- What base64.RawURLEncoding makes of bytes, as the tokens of lists use it, it decodes to the same
-- bytes.
pub decode-encode : (s : Bytes) → All IsByte s → decode (encode s) ≡ some s
unfolding decode
decode-encode s h = rw (encode-stays s h) (decode_groups-encode s h)
