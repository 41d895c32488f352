-- ===== src/Storage/Names.antt =====
-- internal/storage/storage.go: IsValidBucketName and isIPAddress.
pub mod Shape
pub mod Rules
pub mod Tests
use home_store.Prelude.{ℕ, suc, ◌+◌, ◌-◌, Bool, true, false, not, ◌&&◌, ◌||◌, List, [], ◌∷◌}
use home_store.Prelude.{ltb, leb, ◌==◌, all, length, if◌then◌else◌}
use home_store.Prelude.Bytes.{Bytes, split}

-- The loop over `i` with the test of `name[i]` and `name[i+1]`.
unfoldable pub has_double_dot : Bytes → Bool
has_double_dot [] = false
has_double_dot (c ∷ []) = false
has_double_dot (c ∷ d ∷ s) = (c == b'.' && d == b'.') || has_double_dot (d ∷ s)

unfoldable pub is_digit : ℕ → Bool
is_digit c = leb b'0' c && leb c b'9'

unfoldable pub is_lower : ℕ → Bool
is_lower c = leb b'a' c && leb c b'z'

-- The body of the loop over the parts: its two early returns.
unfoldable pub is_octet : Bytes → Bool
unfolding is_digit
is_octet part = not (length part == 0 || ltb 3 (length part)) && all is_digit part

unfoldable pub is_ip_address : Bytes → Bool
unfolding is_octet split
is_ip_address name =
    let parts = split b'.' name in if not (length parts == 4) then false else all is_octet parts

-- The body of the last loop at the byte `c` with index `i` of a name of `n` bytes.
unfoldable pub is_name_char : ℕ → ℕ → ℕ → Bool
unfolding is_lower is_digit
is_name_char n i c =
    if is_lower c
    then true
    else if is_digit c
    then true
    else if c == b'-'
    then not (i == 0 || i == n - 1)
    else if c == b'.'
    then not (i == 0 || i == n - 1)
    else false

-- The last loop, from index `i`.
unfoldable pub all_name_chars : ℕ → ℕ → Bytes → Bool
unfolding is_name_char
all_name_chars n i [] = true
all_name_chars n i (c ∷ s) = is_name_char n i c && all_name_chars n (suc i) s

unfoldable pub is_valid_bucket_name : Bytes → Bool
unfolding has_double_dot is_ip_address all_name_chars
is_valid_bucket_name name =
    if ltb (length name) 3 || ltb 63 (length name)
    then false
    else if has_double_dot name
    then false
    else if is_ip_address name
    then false
    else all_name_chars (length name) 0 name
