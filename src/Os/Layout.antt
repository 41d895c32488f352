-- ===== src/Os/Layout.antt =====
-- Two predicates on the file tree that calls keep: each entry is of the kind that its place wants,
-- and the entry of one path is what it was.
use home_store.Prelude.{
  ◌≡◌, refl, sym, ◌≢◌, Bool, true, false, not, ◌&&◌, Option, some, List, [], ◌∷◌, ◌++◌, arith, all,
  any, Option-cases, inl, inr,
}
use home_store.Prelude.Bytes.{codes, bytes_eq}
use home_store.Os.Path.{FilePath, path_eq, path_eq_iff, is_under, above}
use home_store.Os.Disk.{
  Disk, Node, file, is_dir, lookup, insert, erase, erase_under, make_dirs, blocked, holds_file,
  lookup-insert, lookup-erase, lookup-erase_under, lookup-make_dirs,
}
use home_store.Os.Stable.{StableFile, StableDir, StableTree}

-- The places of directories: the base path, buckets and `bucket_metadata`, what lies in those, and
-- the uploads of a bucket. All else are files.
unfoldable pub dir_path : FilePath → Bool
unfolding bytes_eq
dir_path (b ∷ c ∷ d ∷ []) =
    not (bytes_eq b (codes "bucket_metadata")) && bytes_eq c (codes ".multipart")
dir_path (b ∷ c ∷ d ∷ e ∷ p) = false
dir_path _ = true

-- Every entry is a directory or a file as its place wants.
abbrev pub HasLayout : Disk → Type 0
HasLayout d = (p : FilePath) (n : Node) → lookup p d ≡ some n → is_dir n ≡ dir_path p

pub HasLayout-insert :
    (q : FilePath) (m : Node) (d : Disk)
    → is_dir m ≡ dir_path q
    → HasLayout d
    → HasLayout (insert q m d)
HasLayout-insert q m d h l p n e = ground (arith, lookup-insert q p m d, path_eq_iff q p, l p n)

pub HasLayout-erase : (q : FilePath) (d : Disk) → HasLayout d → HasLayout (erase q d)
HasLayout-erase q d l p n e = ground (arith, lookup-erase q p d, l p n)

pub HasLayout-erase_under :
    (keep : FilePath → Bool) (q : FilePath) (d : Disk)
    → HasLayout d
    → HasLayout (erase_under keep q d)
HasLayout-erase_under keep q d l p n e = ground (arith, lookup-erase_under keep q p d, l p n)

abbrev pub dirs_to : FilePath → List FilePath
dirs_to p = above p ++ p ∷ []

any-all :
    (p : FilePath) (ps : List FilePath)
    → all dir_path ps ≡ true
    → any (λ q. path_eq q p) ps ≡ true
    → dir_path p ≡ true
any-all p [] h e = cc
any-all p (q ∷ ps) h e = ground (arith, path_eq_iff q p, any-all p ps)

pub HasLayout-make_dirs :
    (ps : List FilePath) (d : Disk)
    → all dir_path ps ≡ true
    → HasLayout d
    → HasLayout (make_dirs ps d)
HasLayout-make_dirs ps d h l p n e = ground (arith, lookup-make_dirs ps p d, l p n, any-all p ps h)

pub HasLayout-file : (p : FilePath) → dir_path p ≡ false → StableFile HasLayout p
HasLayout-file p h = record {
  write = λ c d l. HasLayout-insert p (file c) d (sym h) l;
  gone = HasLayout-erase p;
}

pub HasLayout-dir : (p : FilePath) → all dir_path (dirs_to p) ≡ true → StableDir HasLayout p
HasLayout-dir p h = record { make = λ d l. HasLayout-make_dirs (dirs_to p) d h l }

pub HasLayout-tree : (p : FilePath) → StableTree HasLayout p
HasLayout-tree p = record { cut = λ keep d l. HasLayout-erase_under keep p d l }

-- Where the layout holds, no file stands above a path whose places above are for directories.
pub not_blocked :
    (p : FilePath) (d : Disk) → HasLayout d → all dir_path (above p) ≡ true → blocked p d ≡ false
unfolding blocked
not_blocked p d l h = go (above p) h
  where
    go :
        (ps : List FilePath)
        → all dir_path ps ≡ true
        → any (λ q. holds_file (lookup q d)) ps ≡ false
    go [] h = refl
    go (q ∷ ps) h = elim (Option-cases (lookup q d)) [
      | inl e ↦ rw e (go ps (ground arith))
      | inr (n, e) ↦ rw e (ground (arith, l q n e, go ps))
    ]

-- The entry of `q` is `v`.
abbrev pub Holds : FilePath → Option Node → Disk → Type 0
Holds q v d = lookup q d ≡ v

pub Holds-file : (q p : FilePath) (v : Option Node) → p ≢ q → StableFile (Holds q v) p
Holds-file q p v h = record {
  write = λ c d l. ground (arith, lookup-insert p q (file c) d, path_eq_iff p q);
  gone = λ d l. ground (arith, lookup-erase p q d, path_eq_iff p q);
}

pub Holds-dir :
    (q p : FilePath) (v : Option Node)
    → any (λ r. path_eq r q) (dirs_to p) ≡ false
    → StableDir (Holds q v) p
Holds-dir q p v h = record { make = λ d l. ground (arith, lookup-make_dirs (dirs_to p) q d) }

pub Holds-tree :
    (q p : FilePath) (v : Option Node) → is_under p q ≡ false → StableTree (Holds q v) p
Holds-tree q p v h = record { cut = λ keep d l. ground (arith, lookup-erase_under keep p q d) }
