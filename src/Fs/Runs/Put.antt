-- ===== src/Fs/Runs/Put.antt =====
-- internal/storage/fs/objects.go: PutObject and what the other operations then see.
use home_store.Prelude.{◌≡◌, ◌≢◌, sym, ◌∙◌, true, none, some, [], length}
use home_store.Prelude.Bytes.{Bytes, codes}
use home_store.Storage.{ObjectMeta}
use home_store.Storage.Names.{is_valid_bucket_name}
use home_store.Os.Path.{FilePath, dir_of}
use home_store.Os.Disk.{
  Disk, dir, file, Content, raw, json, meta_doc, lookup, insert, erase, make_dirs,
}
use home_store.Os.Exec.{ok, wrap, ◌>>=◌, ◌>>◌}
use home_store.Os.Calls.{Env, Reader, copy_to, close, rename}
use home_store.Os.Layout.{HasLayout, dir_path, dirs_to, HasLayout-insert, HasLayout-erase}
use home_store.Os.Calm.{
  Gives, Gives-pure, Gives-attempt, Gives-wrap, Gives-deferred, Gives-bind, Gives-stat,
  Gives-remove-none, Gives-close, Gives-copy_to, Gives-write_file, Gives-rename, Gives-create_temp,
  Gives-mkdir_all,
}
use home_store.Fs.Paths.{object_path, metadata_path, bucket_metadata_path}
use home_store.Fs.Metadata.{json_meta, put_metadata}
use home_store.Fs.Buckets.{bucket_exists, require_bucket}
use home_store.Fs.Objects.{stored_meta, put_object}
use home_store.Fs.Touches.Objects.{temp_path}
use home_store.Fs.Runs.Places.{
  IsLeaf, object_path-IsLeaf, metadata_path-IsLeaf, temp_path-IsLeaf, bucket_metadata_path-IsLeaf,
  dir_of-temp_path, object-ne-temp, object-ne-metadata, temp-ne-metadata, bucket-ne-object,
  bucket-ne-metadata, bucket-ne-temp, dir-make_dirs, dirs-layout, leaf-ne, leaf-make_dirs, made_dir,
  leaf-ne-dir, lookup-insert_ne, lookup-insert_self, lookup-erase_ne, lookup-erase_self,
}

-- A tree in which the bucket exists.
pub record HasBucket (b : Bytes) (d : Disk) : Type 0 where
  pub layout : HasLayout d
  pub content : Content
  pub bucket : lookup (bucket_metadata_path b) d ≡ some (file content)

pub bucket_exists-Gives :
    (b : Bytes)
    → is_valid_bucket_name b ≡ true
    → (d : Disk) → HasBucket b d
    → Gives (bucket_exists b) d (ok true) d
unfolding bucket_exists
bucket_exists-Gives b valid d h =
    Gives-bind _
      (Gives-attempt (
        Gives-stat (bucket_metadata_path b) d h.layout (bucket_metadata_path-IsLeaf b valid).up
          (file h.content) h.bucket))
      (Gives-pure true d)

pub require_bucket-Gives :
    (b : Bytes)
    → is_valid_bucket_name b ≡ true
    → (d : Disk) → HasBucket b d
    → Gives (require_bucket b) d (ok tt) d
unfolding require_bucket
require_bucket-Gives b valid d h = Gives-bind _ (bucket_exists-Gives b valid d h) (Gives-pure tt d)

module _ (env : Env) (sized : (k : Bytes) → length (env.sha256 k) ≡ 32) (b k : Bytes)
    (valid : is_valid_bucket_name b ≡ true) where
  -- The tree after the metadata was written.
  abbrev pub with_meta : ObjectMeta → Disk → Disk
  with_meta m d =
      insert (metadata_path env b k) (file (json (meta_doc (json_meta env m))))
        (make_dirs (dirs_to (dir_of (metadata_path env b k))) d)

  pub put_metadata-Gives :
      (m : ObjectMeta) (d : Disk)
      → HasLayout d
      → Gives (put_metadata env b k m) d (ok tt) (with_meta m d)
  unfolding put_metadata
  put_metadata-Gives m d l =
      let i = metadata_path-IsLeaf env sized b k valid in
      Gives-bind _ (Gives-wrap (Gives-mkdir_all _ d l i.dir_up i.dir_dir))
        (Gives-wrap (Gives-write_file _ _ (dirs-layout _ i d l) i.dir_up i.leaf (made_dir i d l) _))

  -- The trees that PutObject goes through, and the one that it leaves.
  module _ (d : Disk) (h : HasBucket b d) (free : lookup (temp_path env b k) d ≡ none)
      (body : Reader) (meta : ObjectMeta) where
    abbrev content : Bytes
    content = body.content

    abbrev path : FilePath
    path = object_path env b k

    abbrev tmp : FilePath
    tmp = temp_path env b k

    abbrev opened_disk : Disk
    opened_disk = insert tmp (file (raw [])) (make_dirs (dirs_to (dir_of path)) d)

    abbrev filled_disk : Disk
    filled_disk = insert tmp (file (raw content)) opened_disk

    abbrev renamed_disk : Disk
    renamed_disk = insert path (file (raw content)) (erase tmp filled_disk)

    abbrev pub put_disk : Disk
    put_disk = with_meta (stored_meta env k content (length content) meta) renamed_disk

    abbrev i_path : IsLeaf path
    i_path = object_path-IsLeaf env sized b k valid

    abbrev i_tmp : IsLeaf tmp
    i_tmp = temp_path-IsLeaf env sized b k valid

    abbrev i_meta : IsLeaf (metadata_path env b k)
    i_meta = metadata_path-IsLeaf env sized b k valid

    made-layout : HasLayout (make_dirs (dirs_to (dir_of path)) d)
    made-layout = dirs-layout path i_path d h.layout

    opened-layout : HasLayout opened_disk
    opened-layout = HasLayout-insert tmp _ _ (sym i_tmp.leaf) made-layout

    filled-layout : HasLayout filled_disk
    filled-layout = HasLayout-insert tmp _ _ (sym i_tmp.leaf) opened-layout

    renamed-layout : HasLayout renamed_disk
    renamed-layout =
        HasLayout-insert path _ _ (sym i_path.leaf) (HasLayout-erase tmp _ filled-layout)

    filled-dir : lookup (dir_of path) filled_disk ≡ some dir
    filled-dir =
        lookup-insert_ne tmp _ _ _ (leaf-ne-dir i_tmp i_path)
        ∙ lookup-insert_ne tmp _ _ _ (leaf-ne-dir i_tmp i_path)
        ∙ made_dir i_path d h.layout

    -- What the tree holds afterwards.
    put_disk-leaf :
        (q : FilePath)
        → IsLeaf q
        → metadata_path env b k ≢ q
        → lookup q put_disk ≡ lookup q renamed_disk
    put_disk-leaf q i n = lookup-insert_ne _ q _ _ n ∙ leaf-make_dirs i_meta i _

    pub put_disk-object : lookup path put_disk ≡ some (file (raw content))
    put_disk-object =
        put_disk-leaf path i_path (λ e. object-ne-metadata env sized b k valid (sym e))
        ∙ lookup-insert_self path _ _

    pub put_disk-metadata :
        lookup (metadata_path env b k) put_disk
        ≡ some (
            file
              (json (meta_doc (json_meta env (stored_meta env k content (length content) meta)))))
    put_disk-metadata = lookup-insert_self _ _ _

    pub put_disk-temp : lookup tmp put_disk ≡ none
    put_disk-temp =
        put_disk-leaf tmp i_tmp (λ e. temp-ne-metadata env sized b k valid (sym e))
        ∙ lookup-insert_ne path tmp _ _ (object-ne-temp env sized b k valid)
        ∙ lookup-erase_self tmp filled_disk

    -- Every bucket that was there is there.
    pub put_disk-HasBucket :
        (a : Bytes) → is_valid_bucket_name a ≡ true → HasBucket a d → HasBucket a put_disk
    put_disk-HasBucket a valid_a k_a = record {
      layout =
          HasLayout-insert _ _ _ (sym i_meta.leaf)
            (dirs-layout _ i_meta renamed_disk renamed-layout);
      content = k_a.content;
      bucket =
          let i = bucket_metadata_path-IsLeaf a valid_a in
          let ne_temp : tmp ≢ bucket_metadata_path a =
            λ e. bucket-ne-temp env sized b k valid a valid_a (sym e) in
          put_disk-leaf _ i (λ e. bucket-ne-metadata env sized b k valid a valid_a (sym e))
          ∙ lookup-insert_ne path _ _ _
              (λ e. bucket-ne-object env sized b k valid a valid_a (sym e))
          ∙ lookup-erase_ne tmp _ _ ne_temp
          ∙ lookup-insert_ne tmp _ _ _ ne_temp
          ∙ lookup-insert_ne tmp _ _ _ ne_temp
          ∙ leaf-make_dirs i_path i d
          ∙ k_a.bucket;
    }

    -- A directory that is there once the object's directory is made, is there.
    pub put_disk-dir :
        (q : FilePath)
        → dir_path q ≡ true
        → lookup q (make_dirs (dirs_to (dir_of path)) d) ≡ some dir
        → lookup q put_disk ≡ some dir
    put_disk-dir q h e =
        lookup-insert_ne _ q _ _ (leaf-ne i_meta h)
        ∙ dir-make_dirs _ q _ (
            lookup-insert_ne path q _ _ (leaf-ne i_path h)
            ∙ lookup-erase_ne tmp q _ (leaf-ne i_tmp h)
            ∙ lookup-insert_ne tmp q _ _ (leaf-ne i_tmp h)
            ∙ lookup-insert_ne tmp q _ _ (leaf-ne i_tmp h)
            ∙ e)

    pub put_object-Gives :
        body.intact ≡ true → Gives (put_object env b k body meta) d (ok tt) put_disk
    unfolding put_object
    put_object-Gives whole = Gives-bind _ (require_bucket-Gives b valid d h) (
        Gives-bind _ (Gives-wrap (Gives-mkdir_all _ d h.layout i_path.dir_up i_path.dir_dir)) (
          Gives-bind _
            (Gives-wrap (
              Gives-create_temp (dir_of path) (codes ".tmp-") env.suffix _ made-layout
                (dir_of-temp_path env sized b k valid) i_path.dir_up i_tmp.leaf
                (made_dir i_path d h.layout) (leaf-make_dirs i_path i_tmp d ∙ free)))
            (Gives-deferred written-gives (
              Gives-bind _ (Gives-attempt (Gives-close put_disk)) (
                Gives-bind _
                  (Gives-attempt (
                    Gives-remove-none tmp put_disk (put_disk-HasBucket b valid h).layout i_tmp.up
                      put_disk-temp))
                  (Gives-pure tt put_disk))))))
      where
        written-gives :
            Gives
              (do
                written ← wrap (copy_to tmp body)
                wrap close
                wrap (rename tmp path)
                put_metadata env b k (stored_meta env k content written meta))
              opened_disk
              (ok tt)
              put_disk
        written-gives =
            Gives-bind _
              (Gives-wrap
                (Gives-copy_to tmp body [] opened_disk whole (lookup-insert_self tmp _ _)))
              (Gives-bind _ (Gives-wrap (Gives-close filled_disk)) (
                Gives-bind _
                  (Gives-wrap (
                    Gives-rename path filled_disk filled-layout i_path.dir_up i_path.leaf filled-dir
                      tmp (raw content) i_tmp.up (lookup-insert_self tmp _ _)))
                  (put_metadata-Gives (stored_meta env k content (length content) meta) renamed_disk
                    renamed-layout)))
