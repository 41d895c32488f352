-- ===== src/Fs/Runs/Orphan.antt =====
-- internal/storage/fs/objects.go: an object whose data file is gone and whose metadata file is not,
-- as a DeleteObject leaves it whose second removal fails.
use home_store.Prelude.{◌≡◌, true, none, some, length}
use home_store.Prelude.Bytes.{Bytes}
use home_store.Storage.{ObjectMeta, object_not_found}
use home_store.Storage.Names.{is_valid_bucket_name}
use home_store.Os.Disk.{Disk, file, json, meta_doc, lookup}
use home_store.Os.Exec.{ok, err, ◌>>◌}
use home_store.Os.Calls.{Env}
use home_store.Os.Calm.{
  Gives, Gives-pure, Gives-raise, Gives-attempt, Gives-bind, Gives-read_file, Gives-read_file-none,
  Gives-remove-none,
}
use home_store.Fs.Paths.{object_path, metadata_path}
use home_store.Fs.Metadata.{get_metadata}
use home_store.Fs.Objects.{delete_object, head_object, get_object}
use home_store.Fs.Runs.Places.{object_path-IsLeaf, metadata_path-IsLeaf}
use home_store.Fs.Runs.Put.{HasBucket, require_bucket-Gives}

module _ (env : Env) (sized : (k : Bytes) → length (env.sha256 k) ≡ 32) (b k : Bytes)
    (valid : is_valid_bucket_name b ≡ true) where
  -- The metadata is there, the data is not.
  pub record IsOrphan (m : ObjectMeta) (d : Disk) : Type 0 where
    pub in_bucket : HasBucket b d
    pub no_object : lookup (object_path env b k) d ≡ none
    pub metadata : lookup (metadata_path env b k) d ≡ some (file (json (meta_doc m)))

  module _ (m : ObjectMeta) (d : Disk) (h : IsOrphan m d) where
    orphan_metadata : Gives (get_metadata env b k) d (ok m) d
    unfolding get_metadata
    orphan_metadata =
        Gives-bind _
          (Gives-attempt (
            Gives-read_file _ d h.in_bucket.layout (metadata_path-IsLeaf env sized b k valid).up _
              h.metadata))
          (Gives-pure m d)

    orphan_delete : Gives (delete_object env b k) d (ok tt) d
    unfolding delete_object
    orphan_delete = Gives-bind _ (require_bucket-Gives b valid d h.in_bucket) (
        Gives-bind _
          (Gives-attempt (
            Gives-remove-none _ d h.in_bucket.layout (object_path-IsLeaf env sized b k valid).up
              h.no_object))
          (Gives-pure tt d))

    -- Where no call fails for an outside reason, the data file of an object is gone and its
    -- metadata file is not, GetObject reports that there is no object, but DeleteObject succeeds
    -- without removing the metadata, and HeadObject goes on to report the object after it. The
    -- bucket's name is valid, and a SHA-256 sum has 32 bytes.
    pub delete_object-orphan :
        Gives (get_object env b k) d (err object_not_found) d
        × Gives (delete_object env b k >> head_object env b k) d (ok m) d
    unfolding get_object head_object
    delete_object-orphan = (
      Gives-bind _ (require_bucket-Gives b valid d h.in_bucket) (
          Gives-bind _ orphan_metadata (
            Gives-bind _
              (Gives-attempt (
                Gives-read_file-none _ d h.in_bucket.layout
                  (object_path-IsLeaf env sized b k valid).up h.no_object))
              (Gives-raise object_not_found d))),
      Gives-bind _ orphan_delete
          (Gives-bind _ (require_bucket-Gives b valid d h.in_bucket) orphan_metadata),
    )
