-- ===== src/Fs/Runs/Uploads/Store.antt =====
-- internal/storage/fs/multipart.go: what UploadPart stores.
use home_store.Prelude.{
  ℕ, ◌≡◌, ◌≢◌, sym, ap, ◌∙◌, arith, true, false, none, some, [], ◌∷◌, ◌++◌, length, all,
}
use home_store.Prelude.Bytes.{Bytes, codes}
use home_store.Storage.{MultipartUpload, MultipartPart}
use home_store.Storage.Names.{is_valid_bucket_name}
use home_store.Os.Path.{FilePath, is_under, above, dir_of}
use home_store.Os.Disk.{Disk, Content, dir, file, raw, json, part_doc, lookup, insert, erase}
use home_store.Os.Exec.{ok}
use home_store.Os.Calls.{Env, Reader}
use home_store.Os.Layout.{dir_path, HasLayout, HasLayout-insert, HasLayout-erase}
use home_store.Os.Calm.{
  Gives, Gives-pure, Gives-attempt, Gives-wrap, Gives-bind, Gives-deferred, Gives-copy_to,
  Gives-close, Gives-rename, Gives-create_temp, Gives-write_file, Gives-remove-none,
}
use home_store.Fs.Paths.{bucket_metadata_path, upload_path}
use home_store.Fs.Parts.{valid_part_number, part_data_path, part_metadata_path}
use home_store.Fs.Multipart.{state_path, json_part, uploaded_part, store_part, upload_part}
use home_store.Fs.Runs.Places.{
  lookup-insert_self, lookup-insert_ne, lookup-erase_self, lookup-erase_ne,
}
use home_store.Fs.Runs.Uploads.{
  HasUpload, upload_above, upload_dir, upload_file, in_upload, dir_of-upload, metadata_apart,
  read_upload-Gives,
}
use home_store.Fs.Runs.Uploads.Combine.{data_name, meta_name, data_path-eq, meta_path-eq}
use home_store.Fs.Runs.Uploads.Complete.{apart-ne}
use home_store.Fs.Runs.Uploads.PartNames.{
  head_of, name-ne, data-ne-meta, data-ne, meta-ne, temp-ne-part,
}

module _ (env : Env) (sized : (k : Bytes) → length (env.sha256 k) ≡ 32) (b : Bytes)
    (valid : is_valid_bucket_name b ≡ true) (u : MultipartUpload) (d : Disk)
    (h : HasUpload env sized b valid u d) (n : ℕ) (v : valid_part_number n ≡ true)
    (body : Reader) where
  abbrev id : Bytes
  id = u.upload_id

  abbrev upload : FilePath
  upload = upload_path env b u.upload_id

  abbrev pub part_temp : FilePath
  part_temp = upload_path env b u.upload_id ++ (codes ".part-" ++ env.suffix) ∷ []

  abbrev data_file : FilePath
  data_file = upload ++ data_name env sized b valid id n ∷ []

  abbrev meta_file : FilePath
  meta_file = upload ++ meta_name env sized b valid id n ∷ []

  abbrev pub part : MultipartPart
  part = uploaded_part env n body.content (length body.content)

  abbrev opened : Disk
  opened = insert part_temp (file (raw [])) d

  abbrev filled : Disk
  filled = insert part_temp (file (raw body.content)) opened

  abbrev renamed : Disk
  renamed = insert data_file (file (raw body.content)) (erase part_temp filled)

  abbrev pub stored_disk : Disk
  stored_disk = insert meta_file (file (json (part_doc (json_part env part)))) renamed

  file-ne-dir : (s : Bytes) → upload ++ s ∷ [] ≢ upload
  file-ne-dir s e = cc (upload_file env sized b valid id s, upload_dir env sized b valid id, e)

  written-HasLayout :
      (s : Bytes) (c : Content) (e : Disk)
      → HasLayout e
      → HasLayout (insert (upload ++ s ∷ []) (file c) e)
  written-HasLayout s c e l = HasLayout-insert _ _ _ (sym (upload_file env sized b valid id s)) l

  filled-HasLayout : HasLayout filled
  filled-HasLayout = written-HasLayout _ _ _ (written-HasLayout _ _ _ h.in_bucket.layout)

  renamed-HasLayout : HasLayout renamed
  renamed-HasLayout = written-HasLayout _ _ _ (HasLayout-erase _ _ filled-HasLayout)

  -- What is none of the three files is as it was.
  renamed-other : (q : FilePath) → part_temp ≢ q → data_file ≢ q → lookup q renamed ≡ lookup q d
  renamed-other q t x =
      lookup-insert_ne data_file q _ _ x
      ∙ lookup-erase_ne part_temp q filled t
      ∙ lookup-insert_ne part_temp q _ _ t
      ∙ lookup-insert_ne part_temp q _ _ t

  stored-other :
      (q : FilePath)
      → part_temp ≢ q
      → data_file ≢ q
      → meta_file ≢ q
      → lookup q stored_disk ≡ lookup q d
  stored-other q t x m = lookup-insert_ne meta_file q _ _ m ∙ renamed-other q t x

  temp_gone : lookup part_temp stored_disk ≡ none
  temp_gone =
      lookup-insert_ne meta_file part_temp _ _
        (name-ne upload _ _ (λ e. temp-ne-part env sized b valid id _ (sym e)))
      ∙ lookup-insert_ne data_file part_temp _ _
          (name-ne upload _ _ (λ e. temp-ne-part env sized b valid id _ (sym e)))
      ∙ lookup-erase_self part_temp filled

  filled-place : lookup upload filled ≡ some dir
  filled-place =
      lookup-insert_ne part_temp upload _ _ (file-ne-dir _)
      ∙ lookup-insert_ne part_temp upload _ _ (file-ne-dir _)
      ∙ h.place

  above_file : (s : Bytes) → all dir_path (above (dir_of (upload ++ s ∷ []))) ≡ true
  above_file s = rw (dir_of-upload env sized b valid id s) (upload_above env sized b valid id)

  at_place :
      (s : Bytes) (e : Disk)
      → lookup upload e ≡ some dir
      → lookup (dir_of (upload ++ s ∷ [])) e ≡ some dir
  at_place s e p = rw (dir_of-upload env sized b valid id s) p

  store_part-Gives :
      body.intact ≡ true
      → Gives (store_part env upload part_temp n body) opened (ok part) stored_disk
  unfolding store_part
  store_part-Gives whole =
      rw (data_path-eq env sized b valid id n, meta_path-eq env sized b valid id n)
        (Gives-bind _
          (Gives-attempt
            (Gives-copy_to part_temp body [] opened whole (lookup-insert_self part_temp _ d)))
          (Gives-bind _ (Gives-pure (length body.content) filled) (
            Gives-bind _ (Gives-wrap (Gives-close filled)) (
              Gives-bind _
                (Gives-wrap (
                  Gives-rename data_file filled filled-HasLayout (above_file _)
                    (upload_file env sized b valid id _) (at_place _ filled filled-place) part_temp
                    (raw body.content) (in_upload env sized b valid id _)
                    (lookup-insert_self part_temp _ opened)))
                (Gives-bind _
                  (Gives-wrap (
                    Gives-write_file meta_file renamed renamed-HasLayout (above_file _)
                      (upload_file env sized b valid id _)
                      (at_place _ renamed
                        (renamed-other upload (file-ne-dir _) (file-ne-dir _) ∙ h.place))
                      (json (part_doc (json_part env part)))))
                  (Gives-pure part stored_disk))))))

  upload_part-Gives :
      body.intact ≡ true
      → lookup part_temp d ≡ none
      → Gives (upload_part env b u.key u.upload_id n body) d (ok part) stored_disk
  unfolding upload_part
  upload_part-Gives whole free = rw v (
      Gives-bind _ (read_upload-Gives env sized b valid u d h) (
        Gives-bind _
          (Gives-wrap (
            Gives-create_temp upload (codes ".part-") env.suffix d h.in_bucket.layout
              (dir_of-upload env sized b valid id _) (upload_above env sized b valid id)
              (upload_file env sized b valid id _) h.place free))
          (Gives-deferred (store_part-Gives whole) (
            Gives-bind _
              (Gives-attempt (
                Gives-remove-none part_temp stored_disk (written-HasLayout _ _ _ renamed-HasLayout)
                  (in_upload env sized b valid id _) temp_gone))
              (Gives-pure tt stored_disk)))))

  apart : (q : FilePath) → is_under upload q ≡ false → lookup q stored_disk ≡ lookup q d
  apart q e =
      stored-other q (apart-ne env sized b valid id _ q e) (apart-ne env sized b valid id _ q e)
        (apart-ne env sized b valid id _ q e)

  named : (s t : Bytes) → head_of s ≢ head_of t → upload ++ s ∷ [] ≢ upload ++ t ∷ []
  named s t x = name-ne upload s t (λ e. x (ap head_of e))

  still_there : HasUpload env sized b valid u stored_disk
  still_there = record {
    in_bucket = record {
      layout = written-HasLayout _ _ _ renamed-HasLayout;
      content = h.in_bucket.content;
      bucket =
          apart (bucket_metadata_path b) (metadata_apart env sized b valid id b valid)
          ∙ h.in_bucket.bucket;
    };
    state =
        stored-other (state_path upload) (named _ _ (λ e. omega (arith, e)))
          (named _ _ (λ e. omega (arith, e))) (named _ _ (λ e. omega (arith, e)))
        ∙ h.state;
    place = stored-other upload (file-ne-dir _) (file-ne-dir _) (file-ne-dir _) ∙ h.place;
  }

  -- The files of another part.
  abbrev pub SamePart : ℕ → Type 0
  SamePart m =
      (lookup (part_data_path upload m) stored_disk ≡ lookup (part_data_path upload m) d)
      × (lookup (part_metadata_path upload m) stored_disk ≡ lookup (part_metadata_path upload m) d)

  other_part : (m : ℕ) → valid_part_number m ≡ true → n ≢ m → SamePart m
  other_part m vm x =
      rw (data_path-eq env sized b valid id m, meta_path-eq env sized b valid id m)
        (
          stored-other (upload ++ data_name env sized b valid id m ∷ [])
              (name-ne upload _ _ (temp-ne-part env sized b valid id _))
              (name-ne upload _ _ (data-ne env sized b valid id n m v vm x))
              (name-ne upload _ _ (λ e. data-ne-meta env sized b valid id m n (sym e))),
          stored-other (upload ++ meta_name env sized b valid id m ∷ [])
              (name-ne upload _ _ (temp-ne-part env sized b valid id _))
              (name-ne upload _ _ (data-ne-meta env sized b valid id n m))
              (name-ne upload _ _ (meta-ne env sized b valid id n m v vm x)),
        )

  -- Where no call fails for an outside reason and the name of the temporary file is free,
  -- UploadPart with a part number from 1 to 10000 and a body that is read whole gives the part with
  -- its size and the MD5 sum of its bytes as the ETag; the upload is still there, the part's two
  -- files hold the bytes and the part (its ETag as JSON keeps it), and the files of a part with
  -- another number are as they were. The bucket has a valid name, and a SHA-256 sum has 32 bytes.
  pub upload_part-stores :
      body.intact ≡ true
      → lookup part_temp d ≡ none
      → (m : ℕ) → valid_part_number m ≡ true
      → n ≢ m
      → Gives (upload_part env b u.key u.upload_id n body) d (ok part) stored_disk
        × HasUpload env sized b valid u stored_disk
        × (lookup (part_data_path upload n) stored_disk ≡ some (file (raw body.content)))
        × (lookup (part_metadata_path upload n) stored_disk
            ≡ some (file (json (part_doc (json_part env part)))))
        × SamePart m
  upload_part-stores whole free m vm x = (
    upload_part-Gives whole free,
    still_there,
    ap (λ q. lookup q stored_disk) (data_path-eq env sized b valid id n)
        ∙ lookup-insert_ne meta_file data_file _ _
            (name-ne upload _ _ (λ e. data-ne-meta env sized b valid id n n (sym e)))
        ∙ lookup-insert_self data_file _ _,
    ap (λ q. lookup q stored_disk) (meta_path-eq env sized b valid id n)
        ∙ lookup-insert_self meta_file _ _,
    other_part m vm x,
  )
