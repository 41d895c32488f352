-- ===== src/Fs/Multipart.antt =====
-- internal/storage/fs/multipart.go: multipart uploads.
use home_store.Prelude.{
  ℕ, ◌||◌, not, ltb, ◌==◌, Bool, true, false, Option, none, some, List, [], ◌∷◌, ◌++◌,
  if◌then◌else◌, length,
}
use home_store.Prelude.Bytes.{Bytes, codes, bytes_eq}
use home_store.Prelude.Sort.{sort_by}
use home_store.Storage.{
  Error, ObjectMeta, MultipartUpload, MultipartPart, CompletedPart, upload_not_found, invalid_part,
  not_exist, other,
}
use home_store.Os.Path.{FilePath}
use home_store.Os.Disk.{Node, dir, file, Content, json, upload_doc, part_doc}
use home_store.Os.Exec.{
  Result, ok, err, Fs, pure, raise, attempt, wrap, deferred, call, ◌>>=◌, ◌>>◌,
}
use home_store.Os.Calls.{
  Env, Reader, read_file, read_dir, mkdir_all, write_file, create_temp, copy_to, close, rename,
  remove, remove_all,
}
use home_store.Fs.Paths.{multipart_path, upload_path, hex_encode}
use home_store.Fs.Metadata.{missing_as, entry_path, json_meta, put_metadata}
use home_store.Fs.Buckets.{require_bucket}
use home_store.Fs.Objects.{quoted_hex, bytes_of, put_object, head_object}
use home_store.Fs.Parts.{
  valid_part_number, itoa, trim_quotes, hex_decode, part_data_path, part_metadata_path,
  is_part_metadata,
}

-- The file `upload.json` of an upload.
abbrev pub state_path : FilePath → FilePath
state_path upload = upload ++ codes "upload.json" ∷ []

abbrev pub decode_upload : Content → Option MultipartUpload
decode_upload (json (upload_doc u)) = some u
decode_upload _ = none

abbrev pub decode_part : Content → Option MultipartPart
decode_part (json (part_doc p)) = some p
decode_part _ = none

abbrev pub by_number : MultipartPart → MultipartPart → Bool
by_number a b = ltb a.part_number b.part_number

abbrev pub by_selected : CompletedPart → CompletedPart → Bool
by_selected a b = ltb a.part_number b.part_number

abbrev pub by_initiated : MultipartUpload → MultipartUpload → Bool
by_initiated a b = ltb a.initiated b.initiated

-- rand.Read, which may fail.
unfoldable pub read_random : Bytes → Fs Bytes
read_random bytes = call (λ d. (ok bytes, d)) (λ keep d. d)

-- The loop of ListParts over the entries of the upload's directory.
unfoldable pub read_parts : FilePath → List (Bytes × Node) → Fs (List MultipartPart)
unfolding is_part_metadata
read_parts p [] = pure []
read_parts p ((name, dir) ∷ es) = read_parts p es
read_parts p ((name, file _) ∷ es) = if not (is_part_metadata name) then read_parts p es else do
  c ← wrap (read_file (entry_path p name))
  part ← elim (decode_part c) [ none ↦ raise other | some part ↦ pure part ]
  rest ← read_parts p es
  pure (part ∷ rest)

abbrev pub keep_upload : Result Content → List MultipartUpload → List MultipartUpload
keep_upload (err e) rest = rest
keep_upload (ok c) rest = elim (decode_upload c) [ none ↦ rest | some u ↦ u ∷ rest ]

-- The loop of ListMultipartUploads over the entries of `.multipart`.
unfoldable pub read_uploads : FilePath → List (Bytes × Node) → Fs (List MultipartUpload)
read_uploads p [] = pure []
read_uploads p ((name, file _) ∷ es) = read_uploads p es
read_uploads p ((name, dir) ∷ es) = do
  found ← attempt (read_file (state_path (entry_path p name)))
  rest ← read_uploads p es
  pure (keep_upload found rest)

abbrev pub read_upload_dir : FilePath → Result (List (Bytes × Node)) → Fs (List MultipartUpload)
read_upload_dir p (ok es) = do uploads ← read_uploads p es; pure (sort_by by_initiated uploads)
read_upload_dir p (err not_exist) = pure []
read_upload_dir p (err _) = raise other

unfoldable pub list_multipart_uploads : Bytes → Fs (List MultipartUpload)
unfolding read_uploads sort_by
list_multipart_uploads bucket = do
  require_bucket bucket
  listed ← attempt (read_dir (multipart_path bucket))
  read_upload_dir (multipart_path bucket) listed

module _ (env : Env) where
  abbrev pub json_upload : MultipartUpload → MultipartUpload
  json_upload u = record {
    upload_id = env.json_string u.upload_id;
    key = env.json_string u.key;
    initiated = u.initiated;
    meta = json_meta env u.meta;
  }

  abbrev pub json_part : MultipartPart → MultipartPart
  json_part p = record p { etag = env.json_string p.etag }

  unfoldable pub create_multipart_upload : Bytes → Bytes → ObjectMeta → Fs MultipartUpload
  unfolding hex_encode
  create_multipart_upload bucket key meta = do
    require_bucket bucket
    random ← wrap (read_random env.random)
    let upload : MultipartUpload = record {
      upload_id = hex_encode random;
      key = key;
      initiated = env.now;
      meta = meta;
    }
    let path = upload_path env bucket upload.upload_id
    wrap (mkdir_all path)
    wrap (write_file (state_path path) (json (upload_doc (json_upload upload))))
    pure upload

  abbrev pub matching :
      Bytes → Bytes → FilePath → Option MultipartUpload → Fs (MultipartUpload × FilePath)
  matching key upload_id path none = raise other
  matching key upload_id path (some u) =
      if not (bytes_eq u.upload_id upload_id) || not (bytes_eq u.key key)
      then raise upload_not_found
      else pure (u, path)

  abbrev pub check_upload :
      Bytes → Bytes → FilePath → Result Content → Fs (MultipartUpload × FilePath)
  check_upload key upload_id path (err e) = raise (missing_as upload_not_found e)
  check_upload key upload_id path (ok c) = matching key upload_id path (decode_upload c)

  -- The state of an upload, and its directory.
  unfoldable pub read_upload : Bytes → Bytes → Bytes → Fs (MultipartUpload × FilePath)
  read_upload bucket key upload_id = do
    require_bucket bucket
    let path = upload_path env bucket upload_id
    found ← attempt (read_file (state_path path))
    check_upload key upload_id path found

  abbrev pub uploaded_part : ℕ → Bytes → ℕ → MultipartPart
  uploaded_part n content size = record {
    part_number = n;
    etag = quoted_hex (env.md5 content);
    size = size;
    last_modified = env.now;
  }

  -- The body of UploadPart from the copy on.
  unfoldable pub store_part : FilePath → FilePath → ℕ → Reader → Fs MultipartPart
  store_part upload tmp n body = do
    copied ← attempt (copy_to tmp body)
    size ← elim copied [ ok size ↦ pure size | err e ↦ (do attempt close; raise other) ]
    wrap close
    wrap (rename tmp (part_data_path upload n))
    let part = uploaded_part n body.content size
    wrap (write_file (part_metadata_path upload n) (json (part_doc (json_part part))))
    pure part

  unfoldable pub upload_part : Bytes → Bytes → Bytes → ℕ → Reader → Fs MultipartPart
  unfolding store_part
  upload_part bucket key upload_id n body =
      if not (valid_part_number n) then raise invalid_part else do
        (state, upload) ← read_upload bucket key upload_id
        tmp ← wrap (create_temp upload (codes ".part-") env.suffix)
        deferred (do attempt (remove tmp); pure tt) (store_part upload tmp n body)

  unfoldable pub list_parts : Bytes → Bytes → Bytes → Fs (List MultipartPart)
  unfolding read_parts sort_by
  list_parts bucket key upload_id = do
    (state, upload) ← read_upload bucket key upload_id
    es ← wrap (read_dir upload)
    parts ← read_parts upload es
    pure (sort_by by_number parts)

  -- `_ = combined.Close(); return ..., err`
  abbrev pub give_up : {A : Type 0} → Error → Fs A
  give_up e = do attempt close; raise e

  -- The bytes of a selected part's ETag, from its metadata file.
  abbrev pub part_hash : CompletedPart → Result Content → Option Bytes
  part_hash selected (err e) = none
  part_hash selected (ok c) = elim (decode_part c) [
    | none ↦ none
    | some part ↦
        if bytes_eq part.etag selected.etag then hex_decode (trim_quotes part.etag) else none
  ]

  -- From the opening of the part's data: it is copied to the end of the combined file.
  abbrev pub copy_part : FilePath → Result Content → Fs Unit
  copy_part combined (err e) = give_up invalid_part
  copy_part combined (ok c) = do
    copied ← attempt (copy_to combined (record { content = bytes_of env c; intact = true }))
    attempt close
    elim copied [ ok size ↦ pure tt | err e ↦ give_up other ]

  -- One round of the loop over the selected parts: the bytes that go into the hash.
  unfoldable pub combine_part : FilePath → FilePath → ℕ → CompletedPart → Fs Bytes
  combine_part upload combined previous selected =
      if not (valid_part_number selected.part_number) || selected.part_number == previous
      then give_up invalid_part
      else do
        found ← attempt (read_file (part_metadata_path upload selected.part_number))
        hash ← elim (part_hash selected found) [ none ↦ give_up invalid_part | some h ↦ pure h ]
        opened ← attempt (read_file (part_data_path upload selected.part_number))
        copy_part combined opened
        pure hash

  unfoldable pub combine : FilePath → FilePath → ℕ → List CompletedPart → Fs Bytes
  unfolding combine_part
  combine upload combined previous [] = pure []
  combine upload combined previous (selected ∷ rest) = do
    hash ← combine_part upload combined previous selected
    hashes ← combine upload combined selected.part_number rest
    pure (hash ++ hashes)

  -- fmt.Sprintf(`"%x-%d"`, sum, count)
  unfoldable pub multipart_etag : Bytes → ℕ → Bytes
  unfolding hex_encode itoa
  multipart_etag sum count =
      codes "\"" ++ (hex_encode sum ++ (codes "-" ++ (itoa count ++ codes "\"")))

  -- CompleteMultipartUpload from the loop on.
  unfoldable pub finish_upload :
      Bytes → Bytes → MultipartUpload → FilePath → FilePath → List CompletedPart → Fs ObjectMeta
  unfolding combine
  finish_upload bucket key state upload combined selected = do
    hashes ← combine upload combined 0 selected
    wrap close
    c ← wrap (read_file combined)
    put_object env bucket key (record { content = bytes_of env c; intact = true }) state.meta
    stored ← head_object env bucket key
    let meta = record stored { etag = multipart_etag (env.md5 hashes) (length selected) }
    put_metadata env bucket key meta
    wrap (remove_all upload)
    pure meta

  abbrev pub no_parts : List CompletedPart → Bool
  no_parts [] = true
  no_parts (p ∷ ps) = false

  unfoldable pub complete_multipart_upload :
      Bytes → Bytes → Bytes → List CompletedPart → Fs ObjectMeta
  unfolding finish_upload sort_by
  complete_multipart_upload bucket key upload_id completed = do
    (state, upload) ← read_upload bucket key upload_id
    if no_parts completed then raise invalid_part else do
      combined ← wrap (create_temp upload (codes ".combined-") env.suffix)
      deferred (do attempt (remove combined); pure tt)
          (finish_upload bucket key state upload combined (sort_by by_selected completed))

  unfoldable pub abort_multipart_upload : Bytes → Bytes → Bytes → Fs Unit
  abort_multipart_upload bucket key upload_id = do
    (state, upload) ← read_upload bucket key upload_id
    wrap (remove_all upload)
