-- ===== src/Fs/Parts.antt =====
-- internal/storage/fs/multipart.go: part numbers, part files and the hex text of an ETag.
use mathlib.Core.List.{reverse}
use home_store.Prelude.{
  ℕ, zero, suc, ◌+◌, ◌-◌, ◌*◌, ◌/◌, ◌%◌, leb, ltb, ◌==◌, Bool, ◌&&◌, Option, none, some, [], ◌∷◌,
  ◌++◌, if◌then◌else◌,
}
use home_store.Prelude.Bytes.{Bytes, codes, has_prefix}
use home_store.Os.Path.{FilePath, push}

unfoldable pub valid_part_number : ℕ → Bool
valid_part_number n = leb 1 n && leb n 10000

unfoldable pub itoa_loop : ℕ → ℕ → Bytes → Bytes
itoa_loop zero n acc = acc
itoa_loop (suc fuel) n acc =
    let digits = (b'0' + n % 10) ∷ acc in
    let rest = itoa_loop fuel (n / 10) digits in if ltb n 10 then digits else rest

-- strconv.Itoa of a number that is not negative: a digit falls in each round.
unfoldable pub itoa : ℕ → Bytes
unfolding itoa_loop
itoa n = itoa_loop (suc n) n []

-- strings.HasSuffix(s, suffix)
unfoldable pub has_suffix : Bytes → Bytes → Bool
unfolding has_prefix
has_suffix s suffix = has_prefix (reverse s) (reverse suffix)

abbrev drop_quotes : Bytes → Bytes
drop_quotes [] = []
drop_quotes (c ∷ s) = if c == b'"' then drop_quotes s else c ∷ s

-- strings.Trim(s, `"`)
unfoldable pub trim_quotes : Bytes → Bytes
trim_quotes s = reverse (drop_quotes (reverse (drop_quotes s)))

abbrev pub hex_value : ℕ → Option ℕ
hex_value c =
    if leb b'0' c && leb c b'9'
    then some (c - b'0')
    else if leb b'a' c && leb c b'f'
    then some (c - b'a' + 10)
    else if leb b'A' c && leb c b'F'
    then some (c - b'A' + 10)
    else none

abbrev pub hex_pair : Option ℕ → Option ℕ → Option Bytes → Option Bytes
hex_pair (some a) (some b) (some r) = some ((a * 16 + b) ∷ r)
hex_pair _ _ _ = none

-- hex.DecodeString
unfoldable pub hex_decode : Bytes → Option Bytes
hex_decode [] = some []
hex_decode (a ∷ []) = none
hex_decode (a ∷ b ∷ s) = hex_pair (hex_value a) (hex_value b) (hex_decode s)

abbrev pub part_prefix : Bytes
part_prefix = codes "part-"

unfoldable pub part_data_path : FilePath → ℕ → FilePath
unfolding push itoa
part_data_path upload n = push upload (part_prefix ++ (itoa n ++ codes ".data"))

unfoldable pub part_metadata_path : FilePath → ℕ → FilePath
unfolding push itoa
part_metadata_path upload n = push upload (part_prefix ++ (itoa n ++ codes ".json"))

-- The file names that ListParts reads.
unfoldable pub is_part_metadata : Bytes → Bool
unfolding has_prefix has_suffix
is_part_metadata name = has_prefix name part_prefix && has_suffix name (codes ".json")
