-- ===== src/Fs/Runs/Buckets.antt =====
-- internal/storage/fs/fs.go: what CreateBucket and DeleteBucket give.
use home_store.Prelude.{◌≡◌, refl, sym, ◌∙◌, ap, true, none, some, List, [], ◌∷◌, length, all}
use home_store.Prelude.Bytes.{Bytes, codes}
use home_store.Storage.{ObjectMeta, bucket_not_empty, bucket_exists as exists_error}
use home_store.Storage.Names.{is_valid_bucket_name}
use home_store.Os.Path.{FilePath, dir_of, above}
use home_store.Os.Disk.{
  Disk, Node, dir, file, Content, raw, json, bucket_doc, lookup, insert, make_dirs, entries,
}
use home_store.Os.Disk.Entries.{IsFull, entries-IsFull}
use home_store.Os.Exec.{ok, err, ◌>>◌}
use home_store.Os.Calls.{Env, Reader}
use home_store.Os.Layout.{HasLayout, dir_path, dirs_to, HasLayout-insert, HasLayout-make_dirs}
use home_store.Os.Calm.{
  Gives, Gives-pure, Gives-raise, Gives-attempt, Gives-wrap, Gives-bind, Gives-bind_err, Gives-stat,
  Gives-stat-none, Gives-read_file, Gives-read_dir, Gives-mkdir_all, Gives-write_file,
}
use home_store.Fs.Paths.{bucket_path, bucket_metadata_path, objects_path, object_file_name}
use home_store.Fs.Paths.Shape.{bucket_path-valid, objects_path-valid, object_path-valid}
use home_store.Fs.Buckets.{
  bucket_exists, create_bucket, delete_bucket, get_bucket_location, must_be_empty,
}
use home_store.Fs.Objects.{put_object}
use home_store.Fs.Touches.Objects.{temp_path}
use home_store.Fs.Runs.Places.{
  bucket_metadata_path-IsLeaf, object_path-IsLeaf, dirs-layout, made_dir, made_outer,
  lookup-insert_self,
}
use home_store.Fs.Runs.Put.{
  HasBucket, put_disk, put_disk-dir, put_disk-object, put_disk-HasBucket, put_object-Gives,
}

module _ (b : Bytes) (valid : is_valid_bucket_name b ≡ true) where
  bucket_path-dirs :
      (all dir_path (above (bucket_path b)) ≡ true) × (dir_path (bucket_path b) ≡ true)
  unfolding above dir_path
  bucket_path-dirs = rw (bucket_path-valid b valid) (refl, refl)

  objects_path-dirs :
      (all dir_path (above (objects_path b)) ≡ true) × (dir_path (objects_path b) ≡ true)
  unfolding above dir_path
  objects_path-dirs = rw (objects_path-valid b valid) (refl, refl)

  module _ (env : Env) (d : Disk) (l : HasLayout d)
      (missing : lookup (bucket_metadata_path b) d ≡ none) where
    abbrev path : FilePath
    path = bucket_metadata_path b

    abbrev stored : Content
    stored =
        json (bucket_doc (record { name = b; created_at = env.now; region = codes "us-east-1" }))

    abbrev bucket_disk : Disk
    bucket_disk = make_dirs (dirs_to (bucket_path b)) d

    -- The tree that CreateBucket leaves.
    abbrev pub created_disk : Disk
    created_disk = insert path (file stored) (make_dirs (dirs_to (dir_of path)) bucket_disk)

    bucket_disk-HasLayout : HasLayout bucket_disk
    unfolding dir_path above
    bucket_disk-HasLayout = rw (bucket_path-valid b valid) (HasLayout-make_dirs _ d refl l)

    pub created-HasBucket : HasBucket b created_disk
    created-HasBucket =
        let i = bucket_metadata_path-IsLeaf b valid in
        record {
          layout =
              HasLayout-insert _ _ _ (sym i.leaf)
                (dirs-layout path i bucket_disk bucket_disk-HasLayout);
          content = stored;
          bucket = lookup-insert_self path (file stored) _;
        }

    pub create_bucket-Gives : Gives (create_bucket env b) d (ok tt) created_disk
    unfolding create_bucket
    create_bucket-Gives =
        let i = bucket_metadata_path-IsLeaf b valid in
        rw valid (
          Gives-bind _ (Gives-attempt (Gives-stat-none path d l i.up missing)) (
            Gives-bind _ (Gives-pure tt d) (
              Gives-bind _
                (Gives-wrap (Gives-mkdir_all _ d l bucket_path-dirs.0 bucket_path-dirs.1))
                (Gives-bind _
                  (Gives-wrap
                    (Gives-mkdir_all _ bucket_disk bucket_disk-HasLayout i.dir_up i.dir_dir))
                  (Gives-wrap (
                    Gives-write_file path _ (dirs-layout path i bucket_disk bucket_disk-HasLayout)
                      i.dir_up i.leaf (made_dir i bucket_disk bucket_disk-HasLayout) stored))))))

    pub exists_there : Gives (bucket_exists b) created_disk (ok true) created_disk
    unfolding bucket_exists
    exists_there =
        let h = created-HasBucket in
        Gives-bind _
          (Gives-attempt (
            Gives-stat path _ h.layout (bucket_metadata_path-IsLeaf b valid).up (file stored)
              (lookup-insert_self path (file stored) _)))
          (Gives-pure true created_disk)

    pub create_again : Gives (create_bucket env b) created_disk (err exists_error) created_disk
    unfolding create_bucket
    create_again =
        let h = created-HasBucket in
        rw valid (
          Gives-bind _
            (Gives-attempt (
              Gives-stat path _ h.layout (bucket_metadata_path-IsLeaf b valid).up (file stored)
                (lookup-insert_self path (file stored) _)))
            (Gives-bind_err _ (Gives-raise exists_error created_disk)))

    location_there :
        Gives (get_bucket_location b) created_disk (ok (codes "us-east-1")) created_disk
    unfolding get_bucket_location
    location_there =
        let h = created-HasBucket in
        Gives-bind _
          (Gives-attempt (
            Gives-read_file path _ h.layout (bucket_metadata_path-IsLeaf b valid).up stored
              (lookup-insert_self path (file stored) _)))
          (Gives-pure (codes "us-east-1") created_disk)

    -- Where no call fails for an outside reason and a bucket with a valid name has no metadata
    -- file, after CreateBucket the bucket exists, a second CreateBucket reports that it exists, its
    -- location is us-east-1, and none of the three changes what CreateBucket left.
    pub create_bucket-then :
        Gives (create_bucket env b >> bucket_exists b) d (ok true) created_disk
        × Gives (create_bucket env b >> create_bucket env b) d (err exists_error) created_disk
        × Gives
            (create_bucket env b >> get_bucket_location b)
            d
            (ok (codes "us-east-1"))
            created_disk
    create_bucket-then = (
      Gives-bind _ create_bucket-Gives exists_there,
      Gives-bind _ create_bucket-Gives create_again,
      Gives-bind _ create_bucket-Gives location_there,
    )

  module _ (env : Env) (sized : (k : Bytes) → length (env.sha256 k) ≡ 32) (k : Bytes) (d : Disk)
      (h : HasBucket b d) (free : lookup (temp_path env b k) d ≡ none) (body : Reader)
      (meta : ObjectMeta) (whole : body.intact ≡ true) where
    abbrev pub held_disk : Disk
    held_disk = put_disk env sized b k valid d h free body meta

    held_dir :
        (lookup (bucket_path b) held_disk ≡ some dir)
        × (lookup (objects_path b) held_disk ≡ some dir)
    unfolding dir_of
    held_dir = (
      put_disk-dir env sized b k valid d h free body meta (bucket_path b) bucket_path-dirs.1 (
          rw (object_path-valid env sized b k valid, bucket_path-valid b valid)
            (made_outer b _ d h.layout)),
      put_disk-dir env sized b k valid d h free body meta (objects_path b) objects_path-dirs.1 (
          rw (objects_path-valid b valid ∙ ap dir_of (sym (object_path-valid env sized b k valid)))
            (made_dir (object_path-IsLeaf env sized b k valid) d h.layout)),
    )

    held_entry : IsFull (entries (objects_path b) held_disk)
    held_entry =
        entries-IsFull (objects_path b) (object_file_name env k) (file (raw body.content)) held_disk
          (rw (objects_path-valid b valid) (
            ap (λ q. lookup q held_disk) (sym (object_path-valid env sized b k valid))
            ∙ put_disk-object env sized b k valid d h free body meta))

    not_empty :
        (es : List (Bytes × Node))
        → IsFull es
        → Gives (must_be_empty (ok es)) held_disk (err bucket_not_empty) held_disk
    not_empty (e ∷ es) f = Gives-raise bucket_not_empty held_disk
    not_empty [] f = absurd f

    pub refused : Gives (delete_bucket b) held_disk (err bucket_not_empty) held_disk
    unfolding delete_bucket
    refused =
        let layout = (put_disk-HasBucket env sized b k valid d h free body meta b valid h).layout in
        Gives-bind _
          (Gives-attempt
            (Gives-stat (bucket_path b) held_disk layout bucket_path-dirs.0 dir held_dir.0))
          (Gives-bind _ (Gives-pure tt held_disk) (
            Gives-bind _
              (Gives-attempt
                (Gives-read_dir (objects_path b) held_disk layout objects_path-dirs.0 held_dir.1))
              (Gives-bind_err _ (not_empty _ held_entry))))

    -- In a bucket that exists, where the name of the temporary file is free and no call fails for
    -- an outside reason, DeleteBucket after PutObject reports that the bucket is not empty and
    -- changes nothing. The bucket's name is valid, and a SHA-256 sum has 32 bytes.
    pub delete_bucket-refuses :
        Gives (put_object env b k body meta >> delete_bucket b) d (err bucket_not_empty) held_disk
    delete_bucket-refuses =
        Gives-bind _ (put_object-Gives env sized b k valid d h free body meta whole) refused
