-- ===== src/Os/Path.antt =====
-- package path/filepath: cleaned paths as lists of components, relative to the data directory.
use mathlib.Core.List.{foldl}
use home_store.Prelude.{
  ◌≡◌, refl, arith, ◌↔◌, Bool, true, false, ◌&&◌, List, [], ◌∷◌, ◌++◌, map, list_eq, list_eq_iff,
}
use home_store.Prelude.{if◌then◌else◌, ◌||◌}
use home_store.Prelude.Bytes.{Bytes, codes, bytes_eq, bytes_eq_iff, split}

abbrev pub FilePath : Type 0
FilePath = List Bytes

unfoldable pub path_eq : FilePath → FilePath → Bool
path_eq = list_eq bytes_eq

pub path_eq_iff : (p q : FilePath) → (path_eq p q ≡ true) ↔ (p ≡ q)
unfolding path_eq
path_eq_iff = list_eq_iff bytes_eq bytes_eq_iff

-- Does `p` begin with the components of `q`?
unfoldable pub is_under : FilePath → FilePath → Bool
is_under [] p = true
is_under (c ∷ q) [] = false
is_under (c ∷ q) (d ∷ p) = bytes_eq c d && is_under q p

-- A path begins with each path that it continues.
pub is_under-append : (q p : FilePath) → is_under q (q ++ p) ≡ true
unfolding is_under
is_under-append [] p = refl
is_under-append (c ∷ q) p = ground (arith, bytes_eq_iff c c, is_under-append q p)

-- `..` after a path: it leaves the last component, or goes up where there is none to leave.
unfoldable pub go_up : FilePath → FilePath
go_up [] = codes ".." ∷ []
go_up (c ∷ []) = if bytes_eq c (codes "..") then c ∷ codes ".." ∷ [] else []
go_up (c ∷ d ∷ p) = c ∷ go_up (d ∷ p)

-- One more component, as filepath.Clean treats it.
unfoldable pub push : FilePath → Bytes → FilePath
unfolding go_up bytes_eq
push p c =
    if bytes_eq c [] || bytes_eq c (codes ".")
    then p
    else if bytes_eq c (codes "..")
    then go_up p
    else p ++ c ∷ []

-- filepath.Join(p, elem): the element may hold separators.
unfoldable pub join_path : FilePath → Bytes → FilePath
unfolding push split
join_path p elem = foldl push p (split b'/' elem)

-- filepath.Dir of a path with a last component.
unfoldable pub dir_of : FilePath → FilePath
dir_of [] = []
dir_of (c ∷ []) = []
dir_of (c ∷ d ∷ p) = c ∷ dir_of (d ∷ p)

-- The directories above a path, the topmost first.
unfoldable pub above : FilePath → List FilePath
above [] = []
above (c ∷ p) = [] ∷ map (λ q. c ∷ q) (above p)
