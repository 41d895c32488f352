-- ===== src/Fs/Runs/Uploads/Complete.antt =====
-- internal/storage/fs/multipart.go: CompleteMultipartUpload, and the object that it makes.
use home_store.Prelude.{
  ◌≡◌, ◌≢◌, refl, sym, ap, ◌∙◌, arith, true, false, none, List, [], ◌∷◌, ◌++◌, length,
}
use home_store.Prelude.Bytes.{Bytes, codes, bytes_eq}
use home_store.Prelude.Sort.{sort_by}
use home_store.Storage.{ObjectMeta, MultipartUpload, CompletedPart}
use home_store.Storage.Names.{is_valid_bucket_name}
use home_store.Os.Path.{FilePath, is_under, is_under-append}
use home_store.Os.Disk.{Disk, file, raw, lookup, insert, lookup-erase_under}
use home_store.Os.Exec.{ok, ◌>>◌}
use home_store.Os.Calls.{Env, Reader}
use home_store.Os.Layout.{HasLayout-insert}
use home_store.Os.Calm.{
  Gives, Gives-pure, Gives-attempt, Gives-wrap, Gives-bind, Gives-deferred, Gives-read_file,
  Gives-close, Gives-create_temp, Gives-remove-none, Gives-remove_all,
}
use home_store.Fs.Paths.{bucket_metadata_path, object_path, metadata_path, upload_path}
use home_store.Fs.Paths.Shape.{upload_path-valid, object_path-valid, metadata_path-valid}
use home_store.Fs.Metadata.{json_meta}
use home_store.Fs.Objects.{get_object}
use home_store.Fs.Multipart.{
  state_path, no_parts, by_selected, multipart_etag, combine, finish_upload,
  complete_multipart_upload,
}
use home_store.Fs.Touches.Objects.{temp_path}
use home_store.Fs.Runs.Places.{
  object_path-IsLeaf, metadata_path-IsLeaf, temp_path-valid, bucket_metadata_path-IsLeaf,
  bucket-ne-metadata, object-ne-metadata, lookup-insert_self, lookup-insert_ne, leaf-make_dirs,
  dirs-layout,
}
use home_store.Fs.Runs.Put.{HasBucket, put_disk, put_object-Gives, put_metadata-Gives, with_meta}
use home_store.Fs.Runs.RoundTrip.{
  HasObject, read_back, after-HasObject, head_object-Gives, get_object-Gives,
}
use home_store.Fs.Runs.Uploads.{
  HasUpload, upload_above, upload_file, in_upload, dir_of-upload, metadata_apart, cut_disk,
  cut-HasBucket, cut_state, read_upload-Gives,
}
use home_store.Fs.Runs.Uploads.Combine.{
  Piece, HasPieces, contents_of, hashes_of, selected_of, IsFilled, combined_path, combine-Gives,
}

module _ (env : Env) (sized : (k : Bytes) → length (env.sha256 k) ≡ 32) (b : Bytes)
    (valid : is_valid_bucket_name b ≡ true) where
  -- The files of an object do not lie in an upload.
  module _ (id k : Bytes) where
    object_apart : is_under (upload_path env b id) (object_path env b k) ≡ false
    unfolding is_under bytes_eq
    object_apart =
        rw (upload_path-valid env sized b id valid, object_path-valid env sized b k valid)
          (ground arith)

    file_apart : is_under (upload_path env b id) (metadata_path env b k) ≡ false
    unfolding is_under bytes_eq
    file_apart =
        rw (upload_path-valid env sized b id valid, metadata_path-valid env sized b k valid)
          (ground arith)

    temp_apart : is_under (upload_path env b id) (temp_path env b k) ≡ false
    unfolding is_under bytes_eq
    temp_apart =
        rw (upload_path-valid env sized b id valid, temp_path-valid env sized b k valid)
          (ground arith)

  -- What is apart from the upload is no file in it, and stays when it is removed.
  pub apart-ne :
      (id name : Bytes) (q : FilePath)
      → is_under (upload_path env b id) q ≡ false
      → upload_path env b id ++ name ∷ [] ≢ q
  apart-ne id name q h e = cc (
    is_under-append (upload_path env b id) (name ∷ []),
    h,
    ap (is_under (upload_path env b id)) e,
  )

  apart-cut :
      (id : Bytes) (q : FilePath) (d : Disk)
      → is_under (upload_path env b id) q ≡ false
      → lookup q (cut_disk env sized b valid id d) ≡ lookup q d
  apart-cut id q d h = ground (arith, lookup-erase_under (λ p. false) (upload_path env b id) q d)

  -- Writing the metadata of an object again.
  module _ (k : Bytes) (m : ObjectMeta) (d : Disk) where
    with_meta-HasBucket : HasBucket b d → HasBucket b (with_meta env sized b k valid m d)
    with_meta-HasBucket h =
        let i = metadata_path-IsLeaf env sized b k valid in
        record {
          layout = HasLayout-insert _ _ _ (sym i.leaf) (dirs-layout _ i d h.layout);
          content = h.content;
          bucket =
              lookup-insert_ne (metadata_path env b k) (bucket_metadata_path b) _ _
                (λ e. bucket-ne-metadata env sized b k valid b valid (sym e))
              ∙ leaf-make_dirs i (bucket_metadata_path-IsLeaf b valid) d
              ∙ h.bucket;
        }

    with_meta-object :
        lookup (object_path env b k) (with_meta env sized b k valid m d)
        ≡ lookup (object_path env b k) d
    with_meta-object =
        lookup-insert_ne (metadata_path env b k) (object_path env b k) _ _
          (λ e. object-ne-metadata env sized b k valid (sym e))
        ∙ leaf-make_dirs (metadata_path-IsLeaf env sized b k valid)
            (object_path-IsLeaf env sized b k valid) d

  module _ (u : MultipartUpload) (d : Disk) (h : HasUpload env sized b valid u d) (ps : List Piece)
      (pieces : HasPieces (upload_path env b u.upload_id) 0 ps d)
      (tmp_free : lookup (combined_path env sized b valid u.upload_id) d ≡ none)
      (put_free : lookup (temp_path env b u.key) d ≡ none) where
    abbrev id : Bytes
    id = u.upload_id

    abbrev upload : FilePath
    upload = upload_path env b u.upload_id

    abbrev tmp : FilePath
    tmp = combined_path env sized b valid u.upload_id

    abbrev opened : Disk
    opened = insert tmp (file (raw [])) d

    opened-IsFilled : IsFilled tmp [] d opened
    opened-IsFilled = record {
      layout = HasLayout-insert _ _ _ (sym (upload_file env sized b valid id _)) h.in_bucket.layout;
      filled = lookup-insert_self tmp _ d;
      others = λ q n. lookup-insert_ne tmp q _ d n;
    }

    module _ (e : Disk) (f : IsFilled tmp (contents_of ps) d e) where
      in_filled : HasBucket b e
      in_filled = record {
        layout = f.layout;
        content = h.in_bucket.content;
        bucket =
            f.others (bucket_metadata_path b)
              (apart-ne id _ _ (metadata_apart env sized b valid id b valid))
            ∙ h.in_bucket.bucket;
      }

      still_free : lookup (temp_path env b u.key) e ≡ none
      still_free = f.others _ (apart-ne id _ _ (temp_apart id u.key)) ∙ put_free

      abbrev whole : Reader
      whole = record { content = contents_of ps; intact = true }

      abbrev stored : ObjectMeta
      stored = read_back env sized b u.key valid e in_filled still_free whole u.meta refl

      abbrev put_to : Disk
      put_to = put_disk env sized b u.key valid e in_filled still_free whole u.meta

      put_to-HasObject : HasObject env sized b u.key valid (raw (contents_of ps)) stored put_to
      put_to-HasObject =
          after-HasObject env sized b u.key valid e in_filled still_free whole u.meta refl

      abbrev final_meta : ObjectMeta
      final_meta = record stored {
        etag = multipart_etag env (env.md5 (hashes_of ps)) (length (selected_of ps));
      }

      abbrev rewritten : Disk
      rewritten = with_meta env sized b u.key valid final_meta put_to

      abbrev finished : Disk
      finished = cut_disk env sized b valid id rewritten

      finished-HasObject :
          HasObject env sized b u.key valid
            (raw (contents_of ps))
            (json_meta env final_meta)
            finished
      finished-HasObject =
          let o = put_to-HasObject in
          record {
            in_bucket =
                cut-HasBucket env sized b valid id b valid rewritten
                  (with_meta-HasBucket u.key final_meta put_to o.in_bucket);
            object =
                apart-cut id _ rewritten (object_apart id u.key)
                ∙ with_meta-object u.key final_meta put_to
                ∙ o.object;
            metadata =
                apart-cut id _ rewritten (file_apart id u.key)
                ∙ lookup-insert_self (metadata_path env b u.key) _ _;
          }

      finish_upload-Gives :
          Gives (combine env upload tmp 0 (selected_of ps)) opened (ok (hashes_of ps)) e
          → Gives
              (finish_upload env b u.key u upload tmp (selected_of ps))
              opened
              (ok final_meta)
              finished
      unfolding finish_upload
      finish_upload-Gives g =
          let o = put_to-HasObject in
          let l = with_meta-HasBucket u.key final_meta put_to o.in_bucket in
          Gives-bind _ g (
            Gives-bind _ (Gives-wrap (Gives-close e)) (
              Gives-bind _
                (Gives-wrap
                  (Gives-read_file tmp e f.layout (in_upload env sized b valid id _) _ f.filled))
                (Gives-bind _
                  (put_object-Gives env sized b u.key valid e in_filled still_free whole u.meta
                    refl)
                  (Gives-bind _ (head_object-Gives env sized b u.key valid _ stored put_to o) (
                    Gives-bind _
                      (put_metadata-Gives env sized b u.key valid final_meta put_to
                        o.in_bucket.layout)
                      (Gives-bind _
                        (Gives-wrap (
                          Gives-remove_all upload rewritten l.layout
                            (upload_above env sized b valid id)))
                        (Gives-pure final_meta finished)))))))

      tmp_gone : lookup tmp finished ≡ none
      tmp_gone = ground (
        arith,
        lookup-erase_under (λ p. false) upload tmp rewritten,
        is_under-append upload ((codes ".combined-" ++ env.suffix) ∷ []),
      )

      complete-Gives :
          Gives (combine env upload tmp 0 (selected_of ps)) opened (ok (hashes_of ps)) e
          → (completed : List CompletedPart) → sort_by by_selected completed ≡ selected_of ps
          → no_parts env completed ≡ false
          → Gives (complete_multipart_upload env b u.key id completed) d (ok final_meta) finished
      unfolding complete_multipart_upload
      complete-Gives g completed sorted few =
          Gives-bind _ (read_upload-Gives env sized b valid u d h) (
            rw (few, sorted)
              (Gives-bind _
                (Gives-wrap (
                  Gives-create_temp upload (codes ".combined-") env.suffix d h.in_bucket.layout
                    (dir_of-upload env sized b valid id _) (upload_above env sized b valid id)
                    (upload_file env sized b valid id _) h.place tmp_free))
                (Gives-deferred (finish_upload-Gives g) (
                  Gives-bind _
                    (Gives-attempt (
                      Gives-remove-none tmp finished finished-HasObject.in_bucket.layout
                        (in_upload env sized b valid id _) tmp_gone))
                    (Gives-pure tt finished)))))

    -- Where no call fails for an outside reason, CompleteMultipartUpload of an upload that is
    -- there, with a selection of its parts (their numbers valid and, once sorted, none the same as
    -- the one before it, their ETags those of the parts and hexadecimal), gives an object whose
    -- bytes, as GetObject reads them, are those of the selected parts in the order of their numbers
    -- and whose ETag is made of the MD5 sum of the sums in the ETags and of the number of parts;
    -- and the upload is gone. The bucket exists under a valid name, the selection is not empty, and
    -- the names of the two temporary files are free. A SHA-256 sum has 32 bytes.
    pub complete_multipart_upload-get_object :
        (completed : List CompletedPart)
        → sort_by by_selected completed ≡ selected_of ps
        → no_parts env completed ≡ false
        → (m : ObjectMeta) × (d' : Disk) × Gives
            (complete_multipart_upload env b u.key u.upload_id completed >> get_object env b u.key)
            d
            (ok (record { content = contents_of ps; intact = true }, m))
            d'
          × (m.etag
              ≡ env.json_string
                  (multipart_etag env (env.md5 (hashes_of ps)) (length (selected_of ps))))
          × (lookup (state_path upload) d' ≡ none)
    complete_multipart_upload-get_object completed sorted few =
        let (e, g, f) =
          combine-Gives env sized b valid u.upload_id ps 0 [] d opened pieces opened-IsFilled in
        (
          json_meta env (final_meta e f),
          finished e f,
          Gives-bind _ (complete-Gives e f g completed sorted few) (
              get_object-Gives env sized b u.key valid _ (json_meta env (final_meta e f))
                (finished e f) (finished-HasObject e f)),
          refl,
          cut_state env sized b valid u.upload_id (rewritten e f),
        )
