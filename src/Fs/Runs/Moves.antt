-- ===== src/Fs/Runs/Moves.antt =====
-- internal/storage/fs/objects.go: CopyObject and RenameObject of an object that is there.
use home_store.Prelude.{
  ◌≡◌, refl, sym, ap, ◌∙◌, true, false, ◌&&◌, none, length, arith, Bool-cases, inl, inr,
}
use home_store.Prelude.Bytes.{Bytes, bytes_eq, bytes_eq_iff}
use home_store.Storage.{ObjectMeta, object_not_found}
use home_store.Storage.Names.{is_valid_bucket_name}
use home_store.Os.Disk.{Disk, Content, raw, lookup}
use home_store.Os.Exec.{ok, err, calm, Fs, pure, ◌>>=◌, ◌>>◌}
use home_store.Os.Calls.{Env, Reader}
use home_store.Os.Calm.{Gives, Gives-pure, Gives-bind}
use home_store.Fs.Paths.{object_path, metadata_path, object_file_name}
use home_store.Fs.Metadata.{json_meta}
use home_store.Fs.Objects.{
  bytes_of, empty_meta, quoted_hex, or_default, put_object, get_object, delete_object, copy_object,
  rename_object,
}
use home_store.Fs.Touches.Objects.{temp_path}
use home_store.Fs.Touches.Frame.{IsOther, put_object-other, delete_object-other}
use home_store.Fs.Runs.Places.{lookup-erase_self}
use home_store.Fs.Runs.Put.{HasBucket, put_disk-HasBucket, put_object-Gives}
use home_store.Fs.Runs.RoundTrip.{
  HasObject, get_metadata-Gives, get_object-Gives, delete_object-Gives, get_object-missing, after,
  without, after-HasObject, without-HasBucket,
}

-- The metadata that an operation gives, and what a read after it gives.
abbrev pub with_read :
    Fs ObjectMeta → Fs (Reader × ObjectMeta) → Fs (ObjectMeta × (Reader × ObjectMeta))
with_read m read = do meta ← m; found ← read; pure (meta, found)

module _ (env : Env) (sized : (k : Bytes) → length (env.sha256 k) ≡ 32) (b k b' k' : Bytes)
    (valid : is_valid_bucket_name b ≡ true) (valid' : is_valid_bucket_name b' ≡ true) (c : Content)
    (m : ObjectMeta) (d : Disk) (source : HasObject env sized b k valid c m d)
    (target : HasBucket b' d) (free : lookup (temp_path env b' k') d ≡ none) where
  -- What CopyObject hands on.
  abbrev pub copied_body : Reader
  copied_body = record { content = bytes_of env c; intact = true }

  abbrev copied_meta : ObjectMeta
  copied_meta = record empty_meta { content_type = m.content_type; user_metadata = m.user_metadata }

  -- The metadata of the copy, as JSON keeps it, and the tree with it.
  abbrev pub copy_back : ObjectMeta
  copy_back = json_meta env (record {
    key = k';
    content_type = or_default m.content_type;
    content_length = length (bytes_of env c);
    etag = quoted_hex (env.md5 (bytes_of env c));
    last_modified = env.now;
    user_metadata = m.user_metadata;
  })

  abbrev pub copy_disk : Disk
  copy_disk = after env sized b' k' valid' d target free copied_body copied_meta refl

  pub copy-HasObject : HasObject env sized b' k' valid' (raw (bytes_of env c)) copy_back copy_disk
  copy-HasObject = after-HasObject env sized b' k' valid' d target free copied_body copied_meta refl

  pub copy_object-Gives : Gives (copy_object env b k b' k') d (ok copy_back) copy_disk
  unfolding copy_object
  copy_object-Gives = Gives-bind _ (get_object-Gives env sized b k valid c m d source) (
      Gives-bind _
        (put_object-Gives env sized b' k' valid' d target free copied_body copied_meta refl)
        (get_metadata-Gives env sized b' k' valid' _ copy_back copy_disk copy-HasObject))

  -- Where no call fails for an outside reason and the name of the temporary file is free,
  -- CopyObject of an object that is there to a bucket that exists gives metadata with the new key,
  -- the content type and the user metadata of the source, the length and the quoted MD5 sum of its
  -- bytes and the time of the call (strings as JSON keeps them), and GetObject of the copy then
  -- gives the bytes of the source and the same metadata. The bucket names are valid, and a SHA-256
  -- sum has 32 bytes.
  pub copy_object-get_object :
      Gives
        (with_read (copy_object env b k b' k') (get_object env b' k'))
        d
        (ok (copy_back, (copied_body, copy_back)))
        copy_disk
  copy_object-get_object = Gives-bind _ copy_object-Gives (
      Gives-bind _ (get_object-Gives env sized b' k' valid' _ copy_back copy_disk copy-HasObject)
        (Gives-pure _ copy_disk))

  module _ (other : IsOther env b k b' k') where
    not_same : (bytes_eq b b' && bytes_eq k k') ≡ false
    not_same = elim (Bool-cases (bytes_eq b b' && bytes_eq k k')) [
      | inl e ↦ absurd (
          other (
            ground (arith, bytes_eq_iff b b'),
            ap (object_file_name env) (ground (arith, bytes_eq_iff k k')),
          ))
      | inr e ↦ e
    ]

    -- The copy leaves the files of the source.
    copy-other :
        (lookup (object_path env b k) copy_disk ≡ lookup (object_path env b k) d)
        × (lookup (metadata_path env b k) copy_disk ≡ lookup (metadata_path env b k) d)
    copy-other =
        let put : Gives (put_object env b' k' copied_body copied_meta) d (ok tt) copy_disk =
          put_object-Gives env sized b' k' valid' d target free copied_body copied_meta refl in
        let same =
          put_object-other env sized b' k' b k valid' valid (λ e. other (sym e.0, sym e.1))
            copied_body copied_meta (calm d) in
        let left : (put_object env b' k' copied_body copied_meta (calm d)).1.disk ≡ copy_disk =
          ap (λ r. r.1.disk) put.gives in
        (ap (lookup _) (sym left) ∙ same.0, ap (lookup _) (sym left) ∙ same.1)

    source_there : HasObject env sized b k valid c m copy_disk
    source_there = record {
      in_bucket =
          put_disk-HasBucket env sized b' k' valid' d target free copied_body copied_meta b valid
            source.in_bucket;
      object = copy-other.0 ∙ source.object;
      metadata = copy-other.1 ∙ source.metadata;
    }

    abbrev pub renamed_disk : Disk
    renamed_disk = without env sized b k valid copy_disk

    pub rename_object-Gives : Gives (rename_object env b k b' k') d (ok copy_back) renamed_disk
    unfolding rename_object
    rename_object-Gives = rw not_same (
        Gives-bind _ copy_object-Gives (
          Gives-bind _ (delete_object-Gives env sized b k valid c m copy_disk source_there)
            (Gives-pure copy_back renamed_disk)))

    -- Deleting the source leaves the files of the copy.
    pub target_there :
        HasObject env sized b' k' valid' (raw (bytes_of env c)) copy_back renamed_disk
    target_there =
        let gone = delete_object-Gives env sized b k valid c m copy_disk source_there in
        let same = delete_object-other env sized b k b' k' valid valid' other (calm copy_disk) in
        let left : (delete_object env b k (calm copy_disk)).1.disk ≡ renamed_disk =
          ap (λ r. r.1.disk) gone.gives in
        record {
          in_bucket =
              without-HasBucket env sized b k valid b' valid' copy_disk copy-HasObject.in_bucket;
          object = ap (lookup _) (sym left) ∙ same.0 ∙ copy-HasObject.object;
          metadata = ap (lookup _) (sym left) ∙ same.1 ∙ copy-HasObject.metadata;
        }

    pub source_gone : Gives (get_object env b k) renamed_disk (err object_not_found) renamed_disk
    source_gone =
        get_object-missing env sized b k valid renamed_disk
          (without-HasBucket env sized b k valid b valid copy_disk source_there.in_bucket)
          (lookup-erase_self (metadata_path env b k) _)

    -- Where no call fails for an outside reason and the name of the temporary file is free,
    -- RenameObject of an object that is there to a bucket that exists, under a name with other
    -- files, gives metadata with the content type and the user metadata of the source, but with the
    -- time of the call and the ETag of a new object (the quoted MD5 sum of the bytes); GetObject of
    -- the new name then gives the bytes of the source and the same metadata, and GetObject of the
    -- old name says that there is no such object. The bucket names are valid, and a SHA-256 sum has
    -- 32 bytes.
    pub rename_object-moves :
        Gives
          (with_read (rename_object env b k b' k') (get_object env b' k'))
          d
          (ok (copy_back, (copied_body, copy_back)))
          renamed_disk
        × Gives
            (rename_object env b k b' k' >> get_object env b k)
            d
            (err object_not_found)
            renamed_disk
    rename_object-moves = (
      Gives-bind _ rename_object-Gives (
          Gives-bind _
            (get_object-Gives env sized b' k' valid' _ copy_back renamed_disk target_there)
            (Gives-pure _ renamed_disk)),
      Gives-bind _ rename_object-Gives source_gone,
    )
