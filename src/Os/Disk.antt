-- ===== src/Os/Disk.antt =====
-- A file tree as the list of its entries, and how each change shows in `lookup`.
pub mod Entries
use home_store.Prelude.{
  ◌≡◌, Bool, true, false, Option, none, some, List, [], ◌∷◌, arith, if◌then◌else◌, any,
  Option-cases, inl, inr,
}
use home_store.Prelude.Bytes.{Bytes, bytes_eq, bytes_lt}
use home_store.Prelude.Sort.{sort_by}
use home_store.Storage.{BucketInfo, ObjectMeta, MultipartUpload, MultipartPart}
use home_store.Os.Path.{FilePath, path_eq, path_eq_iff, is_under, above}

-- The values that the backend writes as JSON.
pub data Doc : Type 0 where
  bucket_doc : BucketInfo → Doc
  meta_doc : ObjectMeta → Doc
  upload_doc : MultipartUpload → Doc
  part_doc : MultipartPart → Doc

-- A file holds plain bytes, or the JSON text of a value.
pub data Content : Type 0 where
  raw : Bytes → Content
  json : Doc → Content

pub data Node : Type 0 where
  dir : Node
  file : Content → Node

abbrev pub Disk : Type 0
Disk = List (FilePath × Node)

abbrev pub is_dir : Node → Bool
is_dir dir = true
is_dir (file c) = false

unfoldable pub lookup : FilePath → Disk → Option Node
lookup p [] = none
lookup p ((q, n) ∷ d) = if path_eq q p then some n else lookup p d

unfoldable pub erase : FilePath → Disk → Disk
erase p [] = []
erase p ((q, n) ∷ d) = let rest = erase p d in if path_eq q p then rest else (q, n) ∷ rest

unfoldable pub insert : FilePath → Node → Disk → Disk
unfolding erase
insert p n d = (p, n) ∷ erase p d

-- Everything at or below `p` is gone but for what `keep` names.
unfoldable pub erase_under : (FilePath → Bool) → FilePath → Disk → Disk
erase_under keep p [] = []
erase_under keep p ((q, n) ∷ d) =
    let rest = erase_under keep p d in
    if is_under p q then if keep q then (q, n) ∷ rest else rest else (q, n) ∷ rest

-- The missing directories of a list are made.
unfoldable pub make_dirs : List FilePath → Disk → Disk
unfolding lookup insert
make_dirs [] d = d
make_dirs (p ∷ ps) d = make_dirs ps (elim (lookup p d) [ none ↦ insert p dir d | some n ↦ d ])

abbrev pub holds_file : Option Node → Bool
holds_file (some (file c)) = true
holds_file _ = false

-- A file stands where the path needs a directory.
unfoldable pub blocked : FilePath → Disk → Bool
unfolding lookup above
blocked p d = any (λ q. holds_file (lookup q d)) (above p)

-- The name of `q` in the directory `p`.
unfoldable pub child_name : FilePath → FilePath → Option Bytes
child_name [] (c ∷ []) = some c
child_name [] _ = none
child_name (c ∷ p) [] = none
child_name (c ∷ p) (d ∷ q) = if bytes_eq c d then child_name p q else none

unfoldable pub children : FilePath → Disk → List (Bytes × Node)
unfolding child_name
children p [] = []
children p ((q, n) ∷ d) =
    let rest = children p d in elim (child_name p q) [ none ↦ rest | some c ↦ (c, n) ∷ rest ]

-- The entries of a directory in the order of os.ReadDir.
unfoldable pub entries : FilePath → Disk → List (Bytes × Node)
unfolding children sort_by bytes_lt
entries p d = sort_by (λ a b. bytes_lt a.0 b.0) (children p d)

pub lookup-erase :
    (p q : FilePath) (d : Disk) → lookup q (erase p d) ≡ (if path_eq p q then none else lookup q d)
unfolding lookup erase
lookup-erase p q [] = ground arith
lookup-erase p q ((r, n) ∷ d) =
    ground (arith, lookup-erase p q d, path_eq_iff r p, path_eq_iff r q, path_eq_iff p q)

pub lookup-insert :
    (p q : FilePath) (n : Node) (d : Disk)
    → lookup q (insert p n d) ≡ (if path_eq p q then some n else lookup q d)
unfolding lookup insert
lookup-insert p q n d = ground (arith, lookup-erase p q d)

pub lookup-erase_under :
    (keep : FilePath → Bool) (p q : FilePath) (d : Disk)
    → lookup q (erase_under keep p d)
      ≡ (if is_under p q then if keep q then lookup q d else none else lookup q d)
unfolding lookup erase_under
lookup-erase_under keep p q [] = ground arith
lookup-erase_under keep p q ((r, n) ∷ d) =
    ground (arith, lookup-erase_under keep p q d, path_eq_iff r q)

abbrev pub made : Option Node → Bool → Option Node
made (some n) b = some n
made none true = some dir
made none false = none

pub lookup-make_dirs :
    (ps : List FilePath) (q : FilePath) (d : Disk)
    → lookup q (make_dirs ps d) ≡ made (lookup q d) (any (λ p. path_eq p q) ps)
unfolding make_dirs
lookup-make_dirs [] q d = ground arith
lookup-make_dirs (p ∷ ps) q d = elim (Option-cases (lookup p d)) [
  | inl e ↦
      rw (e, make_dirs)
        (ground
          (arith, lookup-make_dirs ps q (insert p dir d), lookup-insert p q dir d, path_eq_iff p q))
  | inr (n, e) ↦ rw (e, make_dirs) (ground (arith, lookup-make_dirs ps q d, path_eq_iff p q))
]
