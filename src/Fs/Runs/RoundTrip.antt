-- ===== src/Fs/Runs/RoundTrip.antt =====
-- internal/storage/fs/objects.go: what GetObject, HeadObject and DeleteObject make of an object that
-- PutObject stored.
use home_store.Prelude.{◌≡◌, sym, ◌∙◌, true, none, some, length}
use home_store.Prelude.Bytes.{Bytes}
use home_store.Storage.{ObjectMeta, object_not_found}
use home_store.Storage.Names.{is_valid_bucket_name}
use home_store.Os.Disk.{Disk, file, Content, raw, json, meta_doc, lookup, erase}
use home_store.Os.Exec.{ok, err, ◌>>◌}
use home_store.Os.Calls.{Env, Reader}
use home_store.Os.Layout.{HasLayout, HasLayout-erase}
use home_store.Os.Calm.{
  Gives, Gives-pure, Gives-raise, Gives-attempt, Gives-bind, Gives-bind_err, Gives-read_file,
  Gives-read_file-none, Gives-remove,
}
use home_store.Fs.Paths.{object_path, metadata_path}
use home_store.Fs.Metadata.{json_meta, get_metadata, delete_metadata}
use home_store.Fs.Objects.{
  bytes_of, stored_meta, put_object, get_object, head_object, delete_object,
}
use home_store.Fs.Touches.Objects.{temp_path}
use home_store.Fs.Runs.Places.{
  object_path-IsLeaf, metadata_path-IsLeaf, object-ne-metadata, bucket-ne-object,
  bucket-ne-metadata, lookup-erase_ne,
}
use home_store.Fs.Runs.Put.{
  HasBucket, require_bucket-Gives, put_disk, put_disk-HasBucket, put_disk-object, put_disk-metadata,
  put_object-Gives,
}

module _ (env : Env) (sized : (k : Bytes) → length (env.sha256 k) ≡ 32) (b k : Bytes)
    (valid : is_valid_bucket_name b ≡ true) where
  -- The bucket is there and holds the object, in both of its files.
  pub record HasObject (c : Content) (m : ObjectMeta) (d : Disk) : Type 0 where
    pub in_bucket : HasBucket b d
    pub object : lookup (object_path env b k) d ≡ some (file c)
    pub metadata : lookup (metadata_path env b k) d ≡ some (file (json (meta_doc m)))

  pub get_metadata-Gives :
      (c : Content) (m : ObjectMeta) (d : Disk)
      → HasObject c m d
      → Gives (get_metadata env b k) d (ok m) d
  unfolding get_metadata
  get_metadata-Gives c m d h =
      Gives-bind _
        (Gives-attempt (
          Gives-read_file _ d h.in_bucket.layout (metadata_path-IsLeaf env sized b k valid).up _
            h.metadata))
        (Gives-pure m d)

  get_metadata-missing :
      (d : Disk)
      → HasLayout d
      → lookup (metadata_path env b k) d ≡ none
      → Gives (get_metadata env b k) d (err object_not_found) d
  unfolding get_metadata
  get_metadata-missing d l e =
      Gives-bind _
        (Gives-attempt (Gives-read_file-none _ d l (metadata_path-IsLeaf env sized b k valid).up e))
        (Gives-raise object_not_found d)

  pub head_object-Gives :
      (c : Content) (m : ObjectMeta) (d : Disk)
      → HasObject c m d
      → Gives (head_object env b k) d (ok m) d
  unfolding head_object
  head_object-Gives c m d h =
      Gives-bind _ (require_bucket-Gives b valid d h.in_bucket) (get_metadata-Gives c m d h)

  pub get_object-Gives :
      (c : Content) (m : ObjectMeta) (d : Disk)
      → HasObject c m d
      → Gives (get_object env b k) d (ok (record { content = bytes_of env c; intact = true }, m)) d
  unfolding get_object
  get_object-Gives c m d h = Gives-bind _ (require_bucket-Gives b valid d h.in_bucket) (
      Gives-bind _ (get_metadata-Gives c m d h) (
        Gives-bind _
          (Gives-attempt (
            Gives-read_file _ d h.in_bucket.layout (object_path-IsLeaf env sized b k valid).up _
              h.object))
          (Gives-pure _ d)))

  -- The tree without the two files.
  abbrev pub without : Disk → Disk
  without d = erase (metadata_path env b k) (erase (object_path env b k) d)

  pub without-HasBucket :
      (a : Bytes)
      → is_valid_bucket_name a ≡ true
      → (d : Disk) → HasBucket a d
      → HasBucket a (without d)
  without-HasBucket a valid_a d h = record {
    layout = HasLayout-erase _ _ (HasLayout-erase _ _ h.layout);
    content = h.content;
    bucket =
        lookup-erase_ne _ _ _ (λ e. bucket-ne-metadata env sized b k valid a valid_a (sym e))
        ∙ lookup-erase_ne _ _ _ (λ e. bucket-ne-object env sized b k valid a valid_a (sym e))
        ∙ h.bucket;
  }

  pub delete_object-Gives :
      (c : Content) (m : ObjectMeta) (d : Disk)
      → HasObject c m d
      → Gives (delete_object env b k) d (ok tt) (without d)
  unfolding delete_object delete_metadata
  delete_object-Gives c m d h = Gives-bind _ (require_bucket-Gives b valid d h.in_bucket) (
      Gives-bind _
        (Gives-attempt (
          Gives-remove _ d h.in_bucket.layout (object_path-IsLeaf env sized b k valid).up c
            h.object))
        (Gives-bind _
          (Gives-attempt (
            Gives-remove _ (erase (object_path env b k) d) (HasLayout-erase _ _ h.in_bucket.layout)
              (metadata_path-IsLeaf env sized b k valid).up _
              (lookup-erase_ne _ _ _ (object-ne-metadata env sized b k valid) ∙ h.metadata)))
          (Gives-pure tt (without d))))

  pub get_object-missing :
      (d : Disk)
      → HasBucket b d
      → lookup (metadata_path env b k) d ≡ none
      → Gives (get_object env b k) d (err object_not_found) d
  unfolding get_object
  get_object-missing d h e =
      Gives-bind _ (require_bucket-Gives b valid d h)
        (Gives-bind_err _ (get_metadata-missing d h.layout e))

  pub head_object-missing :
      (d : Disk)
      → HasBucket b d
      → lookup (metadata_path env b k) d ≡ none
      → Gives (head_object env b k) d (err object_not_found) d
  unfolding head_object
  head_object-missing d h e =
      Gives-bind _ (require_bucket-Gives b valid d h) (get_metadata-missing d h.layout e)

  module _ (d : Disk) (h : HasBucket b d) (free : lookup (temp_path env b k) d ≡ none)
      (body : Reader) (meta : ObjectMeta) (whole : body.intact ≡ true) where
    -- The metadata that reading gives after PutObject.
    abbrev pub read_back : ObjectMeta
    read_back = json_meta env (stored_meta env k body.content (length body.content) meta)

    abbrev pub after : Disk
    after = put_disk env sized b k valid d h free body meta

    pub after-HasObject : HasObject (raw body.content) read_back after
    after-HasObject = record {
      in_bucket = put_disk-HasBucket env sized b k valid d h free body meta b valid h;
      object = put_disk-object env sized b k valid d h free body meta;
      metadata = put_disk-metadata env sized b k valid d h free body meta;
    }

    -- In a bucket that exists, where the name of the temporary file is free and no call fails for
    -- an outside reason, PutObject of a body that is read whole succeeds, and GetObject then gives
    -- the body's bytes and the metadata of the request with the key, the length, the ETag and the
    -- time filled in (strings as JSON keeps them). The bucket's name is valid, and a SHA-256 sum
    -- has 32 bytes.
    pub put_object-get_object :
        Gives
          (put_object env b k body meta >> get_object env b k)
          d
          (ok (record { content = body.content; intact = true }, read_back))
          after
    put_object-get_object =
        Gives-bind _ (put_object-Gives env sized b k valid d h free body meta whole)
          (get_object-Gives (raw body.content) read_back after after-HasObject)

    -- In a bucket that exists, where the name of the temporary file is free and no call fails for
    -- an outside reason, after PutObject of a body that is read whole HeadObject gives the metadata
    -- that GetObject gives, and changes nothing. The bucket's name is valid, and a SHA-256 sum has
    -- 32 bytes.
    pub put_object-head_object :
        Gives (put_object env b k body meta >> head_object env b k) d (ok read_back) after
    put_object-head_object =
        Gives-bind _ (put_object-Gives env sized b k valid d h free body meta whole)
          (head_object-Gives (raw body.content) read_back after after-HasObject)
