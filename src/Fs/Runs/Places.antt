-- ===== src/Fs/Runs/Places.antt =====
-- The places of the files of a bucket: which are directories, and which are different.
use home_store.Prelude.{
  ◌≡◌, ◌≢◌, refl, sym, ap, ◌∙◌, true, false, Option, none, some, List, [], ◌∷◌, ◌++◌, arith, length,
  all, any, list_eq,
}
use home_store.Prelude.Bytes.{Bytes, codes, bytes_eq_iff}
use home_store.Storage.Names.{is_valid_bucket_name}
use home_store.Os.Path.{FilePath, path_eq, path_eq_iff, dir_of, above}
use home_store.Os.Disk.{
  Disk, Node, dir, file, Content, lookup, insert, erase, make_dirs, made, lookup-insert,
  lookup-erase, lookup-make_dirs,
}
use home_store.Os.Calls.{Env}
use home_store.Os.Layout.{HasLayout, HasLayout-make_dirs, dir_path, dirs_to}
use home_store.Fs.Paths.{object_path, metadata_path, bucket_metadata_path}
use home_store.Fs.Paths.Shape.{
  object_file_name-IsPlain, object_path-valid, metadata_path-valid, bucket_metadata_path-valid,
}
use home_store.Fs.Touches.Objects.{temp_path}
use home_store.Fs.Touches.Frame.{first, second, third, plain_ne_dot}
use home_store.Fs.Touches.Layout.{valid-ne-metadata}

-- A file two directories below the base path.
pub record IsLeaf (p : FilePath) : Type 0 where
  pub up : all dir_path (above p) ≡ true
  pub dir_up : all dir_path (above (dir_of p)) ≡ true
  pub dir_dir : dir_path (dir_of p) ≡ true
  pub leaf : dir_path p ≡ false
  pub deep : (a b : Bytes) → any (λ r. path_eq r p) (dirs_to (a ∷ b ∷ [])) ≡ false
  pub outer : (a : Bytes) × (b : Bytes) × (dir_of p ≡ a ∷ b ∷ [])

three-IsLeaf : (a b c : Bytes) → dir_path (a ∷ b ∷ c ∷ []) ≡ false → IsLeaf (a ∷ b ∷ c ∷ [])
unfolding above dir_of dir_path path_eq list_eq
three-IsLeaf a b c h = record {
  up = refl;
  dir_up = refl;
  dir_dir = refl;
  leaf = h;
  deep = λ x y. ground arith;
  outer = (a, b, refl);
}

not_multipart : (a b c : Bytes) → b ≢ codes ".multipart" → dir_path (a ∷ b ∷ c ∷ []) ≡ false
unfolding dir_path
not_multipart a b c h = ground (arith, bytes_eq_iff b (codes ".multipart"))

bucket_metadata-file : (b c : Bytes) → dir_path (codes "bucket_metadata" ∷ b ∷ c ∷ []) ≡ false
unfolding dir_path
bucket_metadata-file b c = refl

module _ (b : Bytes) (valid : is_valid_bucket_name b ≡ true) where
  pub bucket_metadata_path-IsLeaf : IsLeaf (bucket_metadata_path b)
  bucket_metadata_path-IsLeaf =
      rw (bucket_metadata_path-valid b valid) (three-IsLeaf _ _ _ (bucket_metadata-file b _))

module _ (env : Env) (sized : (k : Bytes) → length (env.sha256 k) ≡ 32) (b k : Bytes)
    (valid : is_valid_bucket_name b ≡ true) where
  pub temp_path-valid :
      temp_path env b k ≡ b ∷ codes ".objects" ∷ (codes ".tmp-" ++ env.suffix) ∷ []
  unfolding dir_of
  temp_path-valid = rw (object_path-valid env sized b k valid)

  pub object_path-IsLeaf : IsLeaf (object_path env b k)
  object_path-IsLeaf =
      rw (object_path-valid env sized b k valid) (three-IsLeaf _ _ _ (not_multipart b _ _ (cc)))

  pub metadata_path-IsLeaf : IsLeaf (metadata_path env b k)
  metadata_path-IsLeaf =
      rw (metadata_path-valid env sized b k valid) (three-IsLeaf _ _ _ (not_multipart b _ _ (cc)))

  pub temp_path-IsLeaf : IsLeaf (temp_path env b k)
  temp_path-IsLeaf = rw temp_path-valid (three-IsLeaf _ _ _ (not_multipart b _ _ (cc)))

  pub dir_of-temp_path : dir_of (temp_path env b k) ≡ dir_of (object_path env b k)
  unfolding dir_of
  dir_of-temp_path = rw (temp_path-valid, object_path-valid env sized b k valid)

  pub object-ne-temp : object_path env b k ≢ temp_path env b k
  object-ne-temp e =
      plain_ne_dot _ _ (object_file_name-IsPlain env sized k)
        (ap third (sym (object_path-valid env sized b k valid) ∙ e ∙ temp_path-valid))

  pub object-ne-metadata : object_path env b k ≢ metadata_path env b k
  object-ne-metadata e = cc (
      ap second
        (sym (object_path-valid env sized b k valid) ∙ e ∙ metadata_path-valid env sized b k valid))

  pub temp-ne-metadata : temp_path env b k ≢ metadata_path env b k
  temp-ne-metadata e =
      cc (ap second (sym temp_path-valid ∙ e ∙ metadata_path-valid env sized b k valid))

  -- The metadata file of a bucket is none of them.
  module _ (a : Bytes) (valid_a : is_valid_bucket_name a ≡ true) where
    pub bucket-ne-object : bucket_metadata_path a ≢ object_path env b k
    bucket-ne-object e = valid-ne-metadata b valid (
        sym (
          ap first (
            sym (bucket_metadata_path-valid a valid_a)
            ∙ e
            ∙ object_path-valid env sized b k valid)))

    pub bucket-ne-metadata : bucket_metadata_path a ≢ metadata_path env b k
    bucket-ne-metadata e = valid-ne-metadata b valid (
        sym (
          ap first (
            sym (bucket_metadata_path-valid a valid_a)
            ∙ e
            ∙ metadata_path-valid env sized b k valid)))

    pub bucket-ne-temp : bucket_metadata_path a ≢ temp_path env b k
    bucket-ne-temp e =
        valid-ne-metadata b valid
          (sym (ap first (sym (bucket_metadata_path-valid a valid_a) ∙ e ∙ temp_path-valid)))

-- A leaf's entry survives the making of directories above another leaf.
pub leaf-make_dirs :
    {p q : FilePath}
    → IsLeaf p
    → IsLeaf q
    → (d : Disk) → lookup q (make_dirs (dirs_to (dir_of p)) d) ≡ lookup q d
leaf-make_dirs {p} {q} ip iq d =
    let (a, b, e) = ip.outer in rw (lookup-make_dirs, e, iq.deep a b) (made-false (lookup q d))
  where
    made-false : (o : Option Node) → made o false ≡ o
    made-false none = refl
    made-false (some n) = refl

self_in : (a b : Bytes) → any (λ r. path_eq r (a ∷ b ∷ [])) (dirs_to (a ∷ b ∷ [])) ≡ true
unfolding above
self_in a b = ground (arith, path_eq_iff (a ∷ b ∷ []) (a ∷ b ∷ []))

made_there : (o : Option Node) → ((c : Content) → o ≢ some (file c)) → made o true ≡ some dir
made_there none h = refl
made_there (some dir) h = refl
made_there (some (file c)) h = absurd (h c refl)

-- The directory of a leaf is there once it was made.
pub made_dir :
    {p : FilePath}
    → IsLeaf p
    → (d : Disk) → HasLayout d
    → lookup (dir_of p) (make_dirs (dirs_to (dir_of p)) d) ≡ some dir
unfolding dir_path
made_dir {p} ip d l =
    let (a, b, e) = ip.outer in
    rw (lookup-make_dirs, e, self_in a b)
      (made_there (lookup (a ∷ b ∷ []) d) (λ c h. cc (l (a ∷ b ∷ []) (file c) h)))

-- A directory that is there stays there when directories are made.
pub dir-make_dirs :
    (ps : List FilePath) (p : FilePath) (d : Disk)
    → lookup p d ≡ some dir
    → lookup p (make_dirs ps d) ≡ some dir
dir-make_dirs ps p d h = rw (lookup-make_dirs, h)

-- A leaf is no directory of a leaf.
pub leaf-ne-dir : {p q : FilePath} → IsLeaf p → IsLeaf q → p ≢ dir_of q
leaf-ne-dir ip iq e = cc (ip.leaf, iq.dir_dir, ap dir_path e)

-- The entry of a path after a file was written, or removed, at another.
pub lookup-insert_ne :
    (p q : FilePath) (n : Node) (d : Disk) → p ≢ q → lookup q (insert p n d) ≡ lookup q d
lookup-insert_ne p q n d h = ground (arith, lookup-insert p q n d, path_eq_iff p q)

pub lookup-insert_self : (p : FilePath) (n : Node) (d : Disk) → lookup p (insert p n d) ≡ some n
lookup-insert_self p n d = ground (arith, lookup-insert p p n d, path_eq_iff p p)

pub lookup-erase_ne : (p q : FilePath) (d : Disk) → p ≢ q → lookup q (erase p d) ≡ lookup q d
lookup-erase_ne p q d h = ground (arith, lookup-erase p q d, path_eq_iff p q)

pub lookup-erase_self : (p : FilePath) (d : Disk) → lookup p (erase p d) ≡ none
lookup-erase_self p d = ground (arith, lookup-erase p p d, path_eq_iff p p)

-- Making directories above a leaf keeps the layout.
pub dirs-layout :
    (p : FilePath)
    → IsLeaf p
    → (d : Disk) → HasLayout d
    → HasLayout (make_dirs (dirs_to (dir_of p)) d)
dirs-layout p i d l = HasLayout-make_dirs _ d (all_dirs (above (dir_of p)) i.dir_up) l
  where
    all_dirs :
        (ps : List FilePath) → all dir_path ps ≡ true → all dir_path (ps ++ dir_of p ∷ []) ≡ true
    all_dirs [] h = ground (arith, i.dir_dir)
    all_dirs (q ∷ ps) h = ground (arith, all_dirs ps)

-- A file's place is no directory's.
pub leaf-ne : {p q : FilePath} → IsLeaf p → dir_path q ≡ true → p ≢ q
leaf-ne i h e = cc (i.leaf, h, ap dir_path e)

outer_in : (a b : Bytes) → any (λ r. path_eq r (a ∷ [])) (dirs_to (a ∷ b ∷ [])) ≡ true
unfolding above
outer_in a b = ground (arith, path_eq_iff (a ∷ []) (a ∷ []))

-- The outer directory of a leaf is there once the inner one was made.
pub made_outer :
    (a b : Bytes) (d : Disk)
    → HasLayout d
    → lookup (a ∷ []) (make_dirs (dirs_to (a ∷ b ∷ [])) d) ≡ some dir
unfolding dir_path
made_outer a b d l =
    rw (lookup-make_dirs, outer_in a b)
      (made_there (lookup (a ∷ []) d) (λ c h. cc (l (a ∷ []) (file c) h)))
