-- ===== src/Http/Base64.antt =====
-- base64.RawURLEncoding.
pub mod RoundTrip
use home_store.Prelude.{
  ℕ, ◌+◌, ◌-◌, ◌*◌, ◌/◌, ◌%◌, leb, ltb, ◌==◌, ◌&&◌, Bool, Option, none, some, [], ◌∷◌,
  if◌then◌else◌,
}
use home_store.Prelude.Bytes.{Bytes}

-- The character of a six-bit value.
unfoldable pub encode_digit : ℕ → ℕ
encode_digit n =
    if ltb n 26
    then b'A' + n
    else if ltb n 52
    then b'a' + n - 26
    else if ltb n 62
    then b'0' + n - 52
    else if n == 62
    then b'-'
    else b'_'

unfoldable pub decode_digit : ℕ → Option ℕ
decode_digit c =
    if leb b'A' c && leb c b'Z'
    then some (c - b'A')
    else if leb b'a' c && leb c b'z'
    then some (c - b'a' + 26)
    else if leb b'0' c && leb c b'9'
    then some (c - b'0' + 52)
    else if c == b'-'
    then some 62
    else if c == b'_'
    then some 63
    else none

-- EncodeToString: three bytes make four characters; the rest is not padded.
unfoldable pub encode : Bytes → Bytes
unfolding encode_digit
encode [] = []
encode (a ∷ []) = encode_digit (a / 4) ∷ encode_digit (a % 4 * 16) ∷ []
encode (a ∷ b ∷ []) =
    encode_digit (a / 4) ∷ encode_digit (a % 4 * 16 + b / 16) ∷ encode_digit (b % 16 * 4) ∷ []
encode (a ∷ b ∷ c ∷ s) =
    encode_digit (a / 4)
    ∷ encode_digit (a % 4 * 16 + b / 16)
    ∷ encode_digit (b % 16 * 4 + c / 64)
    ∷ encode_digit (c % 64)
    ∷ encode s

-- DecodeString skips line ends wherever they stand.
unfoldable pub drop_line_ends : Bytes → Bytes
drop_line_ends [] = []
drop_line_ends (c ∷ s) =
    let rest = drop_line_ends s in if c == 10 then rest else if c == 13 then rest else c ∷ rest

abbrev pub join_two : Option ℕ → Option ℕ → Option Bytes
join_two (some x) (some y) = some ((x * 4 + y / 16) ∷ [])
join_two _ _ = none

abbrev pub join_three : Option ℕ → Option ℕ → Option ℕ → Option Bytes
join_three (some x) (some y) (some z) = some ((x * 4 + y / 16) ∷ (y % 16 * 16 + z / 4) ∷ [])
join_three _ _ _ = none

abbrev pub join_four : Option ℕ → Option ℕ → Option ℕ → Option ℕ → Option Bytes → Option Bytes
join_four (some x) (some y) (some z) (some w) (some s) =
    some ((x * 4 + y / 16) ∷ (y % 16 * 16 + z / 4) ∷ (z % 4 * 64 + w) ∷ s)
join_four _ _ _ _ _ = none

-- The characters in groups of four; the bits that the last group has too many are not looked at.
unfoldable pub decode_groups : Bytes → Option Bytes
unfolding decode_digit
decode_groups [] = some []
decode_groups (a ∷ []) = none
decode_groups (a ∷ b ∷ []) = join_two (decode_digit a) (decode_digit b)
decode_groups (a ∷ b ∷ c ∷ []) = join_three (decode_digit a) (decode_digit b) (decode_digit c)
decode_groups (a ∷ b ∷ c ∷ d ∷ s) =
    join_four (decode_digit a) (decode_digit b) (decode_digit c) (decode_digit d) (decode_groups s)

unfoldable pub decode : Bytes → Option Bytes
unfolding drop_line_ends decode_groups
decode s = decode_groups (drop_line_ends s)
