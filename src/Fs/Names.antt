-- ===== src/Fs/Names.antt =====
-- Which entries may stand in the data directory as far as bucket names go: a bucket's metadata file
-- is there only under a valid name, and nothing stands where an odd name would put it.
use home_store.Prelude.{
  ◌≡◌, refl, Bool, true, false, not, ◌&&◌, some, List, [], ◌∷◌, arith, all, any, if◌then◌else◌,
}
use home_store.Prelude.Bytes.{Bytes, codes, bytes_eq, bytes_eq_iff, lacks, split-lacks}
use home_store.Storage.Names.{is_valid_bucket_name}
use home_store.Os.Path.{FilePath, path_eq, path_eq_iff, push, go_up, join_path}
use home_store.Os.Disk.{
  Disk, Node, file, lookup, insert, lookup-insert, lookup-erase, lookup-erase_under,
  lookup-make_dirs,
}
use home_store.Os.Stable.{StableFile, StableDir, StableTree}
use home_store.Os.Layout.{dirs_to}
use home_store.Fs.Paths.{bucket_metadata_path}

abbrev bucket_file : Bytes
bucket_file = codes ".bucket.json"

unfoldable pub named_path : FilePath → Bool
unfolding bytes_eq is_valid_bucket_name
named_path (a ∷ []) = not (bytes_eq a bucket_file)
named_path (a ∷ b ∷ []) = not (bytes_eq a (codes "bucket_metadata") && bytes_eq b bucket_file)
named_path (a ∷ b ∷ c ∷ []) =
    if bytes_eq a (codes "bucket_metadata") && bytes_eq c bucket_file
    then is_valid_bucket_name b
    else true
named_path _ = true

abbrev pub HasNames : Disk → Type 0
HasNames d = (p : FilePath) (n : Node) → lookup p d ≡ some n → named_path p ≡ true

HasNames-insert :
    (q : FilePath) (m : Node) (d : Disk)
    → named_path q ≡ true
    → HasNames d
    → HasNames (insert q m d)
HasNames-insert q m d h l p n e = ground (arith, lookup-insert q p m d, path_eq_iff q p, l p n)

any-named :
    (p : FilePath) (ps : List FilePath)
    → all named_path ps ≡ true
    → any (λ q. path_eq q p) ps ≡ true
    → named_path p ≡ true
any-named p [] h e = cc
any-named p (q ∷ ps) h e = ground (arith, path_eq_iff q p, any-named p ps)

pub HasNames-file : (p : FilePath) → named_path p ≡ true → StableFile HasNames p
HasNames-file p h = record {
  write = λ c d l. HasNames-insert p (file c) d h l;
  gone = λ d l q n e. ground (arith, lookup-erase p q d, l q n);
}

pub HasNames-dir : (p : FilePath) → all named_path (dirs_to p) ≡ true → StableDir HasNames p
HasNames-dir p h = record {
  make = λ d l q n e.
      ground (arith, lookup-make_dirs (dirs_to p) q d, l q n, any-named q (dirs_to p) h);
}

pub HasNames-tree : (p : FilePath) → StableTree HasNames p
HasNames-tree p = record {
  cut = λ keep d l q n e. ground (arith, lookup-erase_under keep p q d, l q n);
}

valid-facts :
    (b : Bytes)
    → is_valid_bucket_name b ≡ true
    → (bytes_eq b (codes "bucket_metadata") ≡ false) × (bytes_eq b bucket_file ≡ false)
unfolding is_valid_bucket_name
valid-facts b v = (
  ground (arith, bytes_eq_iff b (codes "bucket_metadata")),
  ground (arith, bytes_eq_iff b bucket_file),
)

-- Everything in the directory of a bucket with a valid name may stand.
pub named_path-valid :
    (b : Bytes) (p : FilePath) → is_valid_bucket_name b ≡ true → named_path (b ∷ p) ≡ true
unfolding named_path
named_path-valid b [] v = ground (arith, valid-facts b v)
named_path-valid b (x ∷ []) v = ground (arith, valid-facts b v)
named_path-valid b (x ∷ y ∷ []) v = ground (arith, valid-facts b v)
named_path-valid b (x ∷ y ∷ z ∷ p) v = refl

-- A bucket with a name that is not valid has its metadata where nothing may stand.
pub named_path-invalid :
    (b : Bytes)
    → lacks b'/' b ≡ true
    → is_valid_bucket_name b ≡ false
    → named_path (bucket_metadata_path b) ≡ false
unfolding named_path bucket_metadata_path join_path push go_up
named_path-invalid b h v = rw (split-lacks b'/' b h) (ground arith)
