-- ===== src/Fs/Runs/Uploads.antt =====
-- internal/storage/fs/multipart.go: an upload that was started, until it is aborted.
pub mod Combine
pub mod Complete
pub mod PartNames
pub mod Store
use home_store.Prelude.{
  ℕ, ◌≡◌, ◌≢◌, refl, sym, ap, ◌∙◌, arith, true, false, none, some, List, [], ◌∷◌, ◌++◌, length, all,
}
use home_store.Prelude.Bytes.{Bytes, codes, bytes_eq, bytes_eq_iff}
use home_store.Storage.{ObjectMeta, MultipartUpload, CompletedPart, upload_not_found}
use home_store.Storage.Names.{is_valid_bucket_name}
use home_store.Os.Path.{FilePath, is_under, is_under-append, dir_of, above}
use home_store.Os.Disk.{
  Disk, dir, file, json, upload_doc, lookup, insert, erase_under, make_dirs, lookup-erase_under,
  lookup-make_dirs,
}
use home_store.Os.Exec.{ok, err, ◌>>◌}
use home_store.Os.Calls.{Env, Reader}
use home_store.Os.Layout.{
  HasLayout, HasLayout-insert, HasLayout-make_dirs, HasLayout-erase_under, dir_path, dirs_to,
}
use home_store.Os.Calm.{
  Gives, Gives-pure, Gives-raise, Gives-attempt, Gives-wrap, Gives-bind, Gives-bind_err,
  Gives-read_file, Gives-read_file-none, Gives-mkdir_all, Gives-write_file, Gives-remove_all,
}
use home_store.Fs.Paths.{bucket_metadata_path, upload_path, object_file_name, hex_encode}
use home_store.Fs.Paths.Shape.{upload_path-valid, bucket_metadata_path-valid}
use home_store.Fs.Parts.{valid_part_number}
use home_store.Fs.Multipart.{
  state_path, read_upload, upload_part, list_parts, complete_multipart_upload,
  abort_multipart_upload, create_multipart_upload,
}
use home_store.Fs.Touches.Layout.{valid-ne-metadata}
use home_store.Fs.Runs.Places.{lookup-insert_self, lookup-insert_ne, bucket_metadata_path-IsLeaf}
use home_store.Fs.Runs.Put.{HasBucket, require_bucket-Gives}

module _ (env : Env) (sized : (k : Bytes) → length (env.sha256 k) ≡ 32) (b : Bytes)
    (valid : is_valid_bucket_name b ≡ true) where
  ne_metadata : bytes_eq b (codes "bucket_metadata") ≡ false
  ne_metadata = ground (arith, bytes_eq_iff b (codes "bucket_metadata"), valid-ne-metadata b valid)

  -- The places of an upload: its directory, and a file in it.
  pub upload_dirs : (id : Bytes) → all dir_path (dirs_to (upload_path env b id)) ≡ true
  unfolding dir_path above
  upload_dirs id = rw (upload_path-valid env sized b id valid) (ground (arith, ne_metadata))

  pub upload_above : (id : Bytes) → all dir_path (above (upload_path env b id)) ≡ true
  unfolding dir_path above
  upload_above id = rw (upload_path-valid env sized b id valid) refl

  pub upload_dir : (id : Bytes) → dir_path (upload_path env b id) ≡ true
  unfolding dir_path
  upload_dir id = rw (upload_path-valid env sized b id valid) (ground (arith, ne_metadata))

  pub in_upload :
      (id name : Bytes) → all dir_path (above (upload_path env b id ++ name ∷ [])) ≡ true
  unfolding dir_path above
  in_upload id name = rw (upload_path-valid env sized b id valid) (ground (arith, ne_metadata))

  pub upload_file : (id name : Bytes) → dir_path (upload_path env b id ++ name ∷ []) ≡ false
  unfolding dir_path
  upload_file id name = rw (upload_path-valid env sized b id valid) refl

  pub dir_of-upload :
      (id name : Bytes) → dir_of (upload_path env b id ++ name ∷ []) ≡ upload_path env b id
  unfolding dir_of
  dir_of-upload id name = rw (upload_path-valid env sized b id valid) refl

  pub metadata_apart :
      (id a : Bytes)
      → is_valid_bucket_name a ≡ true
      → is_under (upload_path env b id) (bucket_metadata_path a) ≡ false
  unfolding is_under
  metadata_apart id a valid_a =
      rw (upload_path-valid env sized b id valid, bucket_metadata_path-valid a valid_a)
        (ground (arith, ne_metadata))

  -- The upload is there under its identifier.
  pub record HasUpload (u : MultipartUpload) (d : Disk) : Type 0 where
    pub in_bucket : HasBucket b d
    pub state :
        lookup (state_path (upload_path env b u.upload_id)) d ≡ some (file (json (upload_doc u)))
    pub place : lookup (upload_path env b u.upload_id) d ≡ some dir

  pub read_upload-Gives :
      (u : MultipartUpload) (d : Disk)
      → HasUpload u d
      → Gives (read_upload env b u.key u.upload_id) d (ok (u, upload_path env b u.upload_id)) d
  unfolding read_upload
  read_upload-Gives u d h = Gives-bind _ (require_bucket-Gives b valid d h.in_bucket) (
      Gives-bind _
        (Gives-attempt (
          Gives-read_file _ d h.in_bucket.layout (in_upload u.upload_id (codes "upload.json")) _
            h.state))
        (rw (bytes_self u.upload_id, bytes_self u.key)
          (Gives-pure (u, upload_path env b u.upload_id) d)))
    where
      bytes_self : (s : Bytes) → bytes_eq s s ≡ true
      bytes_self s = (bytes_eq_iff s s).1 refl

  pub read_upload-gone :
      (k id : Bytes) (d : Disk)
      → HasBucket b d
      → lookup (state_path (upload_path env b id)) d ≡ none
      → Gives (read_upload env b k id) d (err upload_not_found) d
  unfolding read_upload
  read_upload-gone k id d h e = Gives-bind _ (require_bucket-Gives b valid d h) (
      Gives-bind _
        (Gives-attempt (Gives-read_file-none _ d h.layout (in_upload id (codes "upload.json")) e))
        (Gives-raise upload_not_found d))

  -- The tree without an upload.
  abbrev pub cut_disk : Bytes → Disk → Disk
  cut_disk id d = erase_under (λ q. false) (upload_path env b id) d

  pub cut-HasBucket :
      (id a : Bytes)
      → is_valid_bucket_name a ≡ true
      → (d : Disk) → HasBucket a d
      → HasBucket a (cut_disk id d)
  cut-HasBucket id a valid_a d h = record {
    layout = HasLayout-erase_under _ _ d h.layout;
    content = h.content;
    bucket = ground (
      arith,
      lookup-erase_under (λ q. false) (upload_path env b id) (bucket_metadata_path a) d,
      metadata_apart id a valid_a,
      h.bucket,
    );
  }

  pub cut_state :
      (id : Bytes) (d : Disk) → lookup (state_path (upload_path env b id)) (cut_disk id d) ≡ none
  cut_state id d = ground (
    arith,
    lookup-erase_under (λ q. false) (upload_path env b id) (state_path (upload_path env b id)) d,
    is_under-append (upload_path env b id) (codes "upload.json" ∷ []),
  )

  abort-Gives :
      (u : MultipartUpload) (d : Disk)
      → HasUpload u d
      → Gives (abort_multipart_upload env b u.key u.upload_id) d (ok tt) (cut_disk u.upload_id d)
  unfolding abort_multipart_upload
  abort-Gives u d h = Gives-bind _ (read_upload-Gives u d h) (
      Gives-wrap (
        Gives-remove_all (upload_path env b u.upload_id) d h.in_bucket.layout
          (upload_above u.upload_id)))

  -- Where no call fails for an outside reason, AbortMultipartUpload of an upload that is there
  -- succeeds, and each of UploadPart (with a part number from 1 to 10000), ListParts,
  -- CompleteMultipartUpload and AbortMultipartUpload of it then reports that there is no such
  -- upload and changes nothing. The bucket's name is valid, and a SHA-256 sum has 32 bytes.
  pub abort_multipart_upload-gone :
      (u : MultipartUpload) (d : Disk)
      → HasUpload u d
      → (n : ℕ) → valid_part_number n ≡ true
      → (body : Reader) (ps : List CompletedPart)
      → let gone = cut_disk u.upload_id d in
        Gives (abort_multipart_upload env b u.key u.upload_id) d (ok tt) gone
        × Gives (upload_part env b u.key u.upload_id n body) gone (err upload_not_found) gone
        × Gives (list_parts env b u.key u.upload_id) gone (err upload_not_found) gone
        × Gives
            (complete_multipart_upload env b u.key u.upload_id ps)
            gone
            (err upload_not_found)
            gone
        × Gives (abort_multipart_upload env b u.key u.upload_id) gone (err upload_not_found) gone
  unfolding upload_part list_parts complete_multipart_upload abort_multipart_upload
  abort_multipart_upload-gone u d h n v body ps =
      let gone =
        read_upload-gone u.key u.upload_id (cut_disk u.upload_id d)
          (cut-HasBucket u.upload_id b valid d h.in_bucket) (cut_state u.upload_id d) in
      (
        abort-Gives u d h,
        rw v (Gives-bind_err _ gone),
        Gives-bind_err _ gone,
        Gives-bind_err _ gone,
        Gives-bind_err _ gone,
      )
