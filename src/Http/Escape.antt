-- ===== src/Http/Escape.antt =====
-- url.PathUnescape: `%` and two hexadecimal digits make a byte; anything else after `%` is an error.
use home_store.Prelude.{ℕ, ◌==◌, Option, none, some, [], ◌∷◌, if◌then◌else◌}
use home_store.Prelude.Bytes.{Bytes}
use home_store.Fs.Parts.{hex_value, hex_pair}

abbrev pub cons_byte : ℕ → Option Bytes → Option Bytes
cons_byte c none = none
cons_byte c (some s) = some (c ∷ s)

-- What an escape gives: the byte of two digits before the rest.
unfoldable pub path_unescape : Bytes → Option Bytes
path_unescape [] = some []
path_unescape (c ∷ []) = if c == b'%' then none else some (c ∷ [])
path_unescape (c ∷ d ∷ []) = if c == b'%' then none else cons_byte c (path_unescape (d ∷ []))
path_unescape (c ∷ d ∷ e ∷ s) =
    let escaped = hex_pair (hex_value d) (hex_value e) (path_unescape s) in
    let plain = cons_byte c (path_unescape (d ∷ e ∷ s)) in if c == b'%' then escaped else plain
