-- ===== src/Fs/Touches/Kept.antt =====
-- Every operation of the backend keeps the layout and the names, at any bucket name without a slash:
-- a valid name stays in the bucket's own directory, and any other name is refused.
use home_store.Prelude.{
  ◌≡◌, true, false, Option-cases, none, [], ◌∷◌, arith, length, Bool-cases, inl, inr,
}
use home_store.Prelude.Bytes.{Bytes, codes}
use home_store.Storage.Names.{is_valid_bucket_name}
use home_store.Os.Path.{FilePath, dir_of, above}
use home_store.Os.Disk.{Disk, lookup}
use home_store.Os.Exec.{Fs}
use home_store.Os.Calls.{Env}
use home_store.Os.Layout.{HasLayout, HasLayout-tree}
use home_store.Os.Stable.{
  Always, Never, Keeps, Keeps-weaken, StableFile, StableDir, StableTree, StableFile-both,
  StableDir-both, StableTree-both,
}
use home_store.Fs.Paths.{bucket_path, bucket_metadata_path}
use home_store.Fs.Paths.Shape.{
  bucket_path-valid, bucket_metadata_path-valid, object_path-valid, metadata_path-valid,
  upload_path-valid,
}
use home_store.Fs.Paths.{upload_path, object_file_name}
use home_store.Fs.Names.{
  HasNames, HasNames-file, HasNames-dir, HasNames-tree, named_path, named_path-valid,
  named_path-invalid,
}
use home_store.Fs.Implements.{fs_backend}
use home_store.Fs.Objects.{rename_object}
use home_store.Fs.Touches.Layout.{object-HasLayout, upload-HasLayout}
use home_store.Fs.Touches.Objects.{
  StableObject, put_object-Keeps, delete_object-Keeps, copy_object-Keeps, rename_object-Keeps,
}
use home_store.Fs.Touches.Buckets.{create_bucket-Keeps, delete_bucket-Keeps}
use home_store.Fs.Touches.Multipart.{
  StableUpload, create_multipart_upload-Keeps, upload_part-Keeps, complete_multipart_upload-Keeps,
  abort_multipart_upload-Keeps,
}
use home_store.Fs.Touches.Unnamed.{
  put_object-refused, delete_object-refused, copy_object-refused, rename_object-refused,
  rename_from-refused, create_multipart_upload-refused, upload_part-refused,
  complete_multipart_upload-refused, abort_multipart_upload-refused,
}
use home_store.Fs.History.Invariant.{bucket_dir, metadata_dir, metadata_file}
use home_store.Backend.Keeps.{KeepsWrites, IsBare}

abbrev pub IsKept : Disk → Type 0
IsKept d = HasLayout d × HasNames d

missing_metadata :
    (b : Bytes)
    → IsBare b
    → is_valid_bucket_name b ≡ false
    → (d : Disk) → IsKept d
    → lookup (bucket_metadata_path b) d ≡ none
missing_metadata b h v d (l, m) = elim (Option-cases (lookup (bucket_metadata_path b) d)) [
  | inl e ↦ e
  | inr (n, e) ↦ absurd (cc (m (bucket_metadata_path b) n e, named_path-invalid b h v))
]

-- By whether the name is valid.
by_name :
    {A : Type 0} (b : Bytes) (m : Fs A)
    → IsBare b
    → (is_valid_bucket_name b ≡ true → Keeps IsKept Always m)
    → (((d : Disk) → IsKept d → lookup (bucket_metadata_path b) d ≡ none) → Keeps IsKept Never m)
    → Keeps IsKept Always m
by_name b m h good bad = elim (Bool-cases (is_valid_bucket_name b)) [
  | inl v ↦ good v
  | inr v ↦ Keeps-weaken m (bad (missing_metadata b h v))
]

-- A directory of a bucket and those above it.
dirs_named : (b x : Bytes) → is_valid_bucket_name b ≡ true → StableDir HasNames (b ∷ x ∷ [])
unfolding above named_path
dirs_named b x v =
    HasNames-dir _ (ground (arith, named_path-valid b [] v, named_path-valid b (x ∷ []) v))

module _ (b : Bytes) (v : is_valid_bucket_name b ≡ true) where
  kept_bucket : StableDir IsKept (bucket_path b)
  unfolding above named_path
  kept_bucket =
      StableDir-both (bucket_dir b v)
        (rw (bucket_path-valid b v) (HasNames-dir _ (ground (arith, named_path-valid b [] v))))

  kept_metadata_dir : StableDir IsKept (dir_of (bucket_metadata_path b))
  unfolding above named_path dir_of
  kept_metadata_dir = StableDir-both (metadata_dir b v) (
      rw (bucket_metadata_path-valid b v)
        (HasNames-dir _ (ground (arith, named_path-valid b [] v))))

  kept_metadata : StableFile IsKept (bucket_metadata_path b)
  unfolding named_path
  kept_metadata =
      StableFile-both (metadata_file b v) (rw (bucket_metadata_path-valid b v) (HasNames-file _ v))

kept_tree : (p : FilePath) → StableTree IsKept p
kept_tree p = StableTree-both (HasLayout-tree p) (HasNames-tree p)

module _ (env : Env) (sized : (k : Bytes) → length (env.sha256 k) ≡ 32) where
  object-HasNames : (b k : Bytes) → is_valid_bucket_name b ≡ true → StableObject HasNames env b k
  unfolding dir_of
  object-HasNames b k v = record {
    data_dir = rw (object_path-valid env sized b k v) (dirs_named b _ v);
    data_file = rw (object_path-valid env sized b k v) (HasNames-file _ (named_path-valid b _ v));
    temp_file = rw (object_path-valid env sized b k v) (HasNames-file _ (named_path-valid b _ v));
    meta_dir = rw (metadata_path-valid env sized b k v) (dirs_named b _ v);
    meta_file = rw (metadata_path-valid env sized b k v) (HasNames-file _ (named_path-valid b _ v));
  }

  upload-HasNames :
      (b id : Bytes) → is_valid_bucket_name b ≡ true → StableUpload HasNames (upload_path env b id)
  unfolding above named_path
  upload-HasNames b id v = rw (upload_path-valid env sized b id v) (record {
    place = HasNames-dir _ (
        ground (
          arith,
          named_path-valid b [] v,
          named_path-valid b (codes ".multipart" ∷ []) v,
          named_path-valid b (codes ".multipart" ∷ object_file_name env id ∷ []) v,
        ));
    files = λ name.
        HasNames-file _
          (named_path-valid b (codes ".multipart" ∷ object_file_name env id ∷ name ∷ []) v);
    tree = HasNames-tree _;
  })

  kept_object : (b k : Bytes) → is_valid_bucket_name b ≡ true → StableObject IsKept env b k
  kept_object b k v =
      let l = object-HasLayout env sized b k v in
      let n = object-HasNames b k v in
      record {
        data_dir = StableDir-both l.data_dir n.data_dir;
        data_file = StableFile-both l.data_file n.data_file;
        temp_file = StableFile-both l.temp_file n.temp_file;
        meta_dir = StableDir-both l.meta_dir n.meta_dir;
        meta_file = StableFile-both l.meta_file n.meta_file;
      }

  kept_upload :
      (b id : Bytes) → is_valid_bucket_name b ≡ true → StableUpload IsKept (upload_path env b id)
  kept_upload b id v =
      let l = upload-HasLayout env sized b id v in
      let n = upload-HasNames b id v in
      record {
        place = StableDir-both l.place n.place;
        files = λ name. StableFile-both (l.files name) (n.files name);
        tree = StableTree-both l.tree n.tree;
      }

  rename_object-kept :
      (b k b' k' : Bytes) → IsBare b → IsBare b' → Keeps IsKept Always (rename_object env b k b' k')
  rename_object-kept b k b' k' h h' = elim (Bool-cases (is_valid_bucket_name b)) [
    | inr v ↦ rename_from-refused b (missing_metadata b h v) env b' k' k
    | inl v ↦ elim (Bool-cases (is_valid_bucket_name b')) [
      | inr v' ↦ rename_object-refused b' (missing_metadata b' h' v') env b k k'
      | inl v' ↦ rename_object-Keeps env b k b' k' (kept_object b' k' v') (kept_object b k v)
    ]
  ]

  pub fs_backend-KeepsWrites : KeepsWrites IsKept (fs_backend env)
  fs_backend-KeepsWrites = record {
    create_bucket = λ b v.
        create_bucket-Keeps env b (kept_bucket b v) (kept_metadata_dir b v) (kept_metadata b v);
    delete_bucket = λ b v. delete_bucket-Keeps b (kept_tree _) (kept_tree _);
    put_object = λ b k r m h.
        by_name b _ h (λ v. put_object-Keeps env b k (kept_object b k v) r m)
          (λ x. put_object-refused b x env k r m);
    delete_object = λ b k h.
        by_name b _ h (λ v. delete_object-Keeps env b k (kept_object b k v))
          (λ x. delete_object-refused b x env k);
    copy_object = λ b k b' k' h.
        by_name b' _ h (λ v. copy_object-Keeps env b k b' k' (kept_object b' k' v))
          (λ x. copy_object-refused b' x env b k k');
    rename_object = λ b k b' k' h h'. rename_object-kept b k b' k' h h';
    create_multipart_upload = λ b k m h.
        by_name b _ h (λ v. create_multipart_upload-Keeps env b k m (kept_upload b _ v))
          (λ x. create_multipart_upload-refused b x env k m);
    upload_part = λ b k id i r h.
        by_name b _ h (λ v. upload_part-Keeps env b k id (kept_upload b id v) i r)
          (λ x. upload_part-refused b x env k id i r);
    complete_multipart_upload = λ b k id ps h.
        by_name b _ h
          (λ v.
            complete_multipart_upload-Keeps env b k id (kept_upload b id v) ps (kept_object b k v))
          (λ x. complete_multipart_upload-refused b x env k id ps);
    abort_multipart_upload = λ b k id h.
        by_name b _ h (λ v. abort_multipart_upload-Keeps env b k id (kept_upload b id v))
          (λ x. abort_multipart_upload-refused b x env k id);
  }
