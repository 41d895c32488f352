-- ===== src/Fs/Runs/Uploads/Combine.antt =====
-- internal/storage/fs/multipart.go: the loop of CompleteMultipartUpload, which puts the parts together.
use home_store.Prelude.{
  ℕ, subst, ◌≡◌, ◌≢◌, refl, sym, ap, ◌∙◌, arith, true, false, ◌==◌, some, List, [], ◌∷◌, ◌++◌,
  length,
}
use mathlib.Core.List.{append-nil, append_assoc}
use home_store.Prelude.Bytes.{Bytes, codes, bytes_eq, bytes_eq_iff}
use home_store.Storage.{MultipartPart, CompletedPart}
use home_store.Storage.Names.{is_valid_bucket_name}
use home_store.Os.Path.{FilePath, push}
use home_store.Os.Disk.{Disk, file, Content, raw, json, part_doc, lookup, insert}
use home_store.Os.Exec.{ok}
use home_store.Os.Calls.{Env, read_file}
use home_store.Os.Layout.{HasLayout, HasLayout-insert}
use home_store.Os.Calm.{
  Gives, Gives-pure, Gives-attempt, Gives-bind, Gives-read_file, Gives-copy_to, Gives-close,
}
use home_store.Fs.Paths.{upload_path}
use home_store.Fs.Paths.Shape.{upload_path-valid}
use home_store.Fs.Parts.{
  valid_part_number, part_data_path, part_metadata_path, itoa, hex_decode, trim_quotes,
}
use home_store.Fs.Multipart.{combine_part, combine}
use home_store.Fs.Runs.Places.{lookup-insert_self, lookup-insert_ne}
use home_store.Fs.Runs.Uploads.{in_upload, upload_file}

-- What a selected part is: its bytes, and the bytes of its ETag.
pub record Piece : Type 0 where
  pub selected : CompletedPart
  pub content : Bytes
  pub hash : Bytes
  pub stored : MultipartPart

abbrev pub contents_of : List Piece → Bytes
contents_of [] = []
contents_of (p ∷ ps) = p.content ++ contents_of ps

abbrev pub hashes_of : List Piece → Bytes
hashes_of [] = []
hashes_of (p ∷ ps) = p.hash ++ hashes_of ps

abbrev pub selected_of : List Piece → List CompletedPart
selected_of [] = []
selected_of (p ∷ ps) = p.selected ∷ selected_of ps

-- The part lies in the upload, and its number differs from the one before it.
pub record HasPiece (upload : FilePath) (previous : ℕ) (p : Piece) (d : Disk) : Type 0 where
  pub number : valid_part_number p.selected.part_number ≡ true
  pub next : (p.selected.part_number == previous) ≡ false
  pub meta_file :
      lookup (part_metadata_path upload p.selected.part_number) d
      ≡ some (file (json (part_doc p.stored)))
  pub etag : p.stored.etag ≡ p.selected.etag
  pub decoded : hex_decode (trim_quotes p.stored.etag) ≡ some p.hash
  pub data_file :
      lookup (part_data_path upload p.selected.part_number) d ≡ some (file (raw p.content))

abbrev pub HasPieces : FilePath → ℕ → List Piece → Disk → Type 0
HasPieces upload previous [] d = Unit
HasPieces upload previous (p ∷ ps) d =
    HasPiece upload previous p d × HasPieces upload p.selected.part_number ps d

-- The tree with so many bytes in the combined file.
pub record IsFilled (tmp : FilePath) (content : Bytes) (d e : Disk) : Type 0 where
  pub layout : HasLayout e
  pub filled : lookup tmp e ≡ some (file (raw content))
  pub others : (q : FilePath) → tmp ≢ q → lookup q e ≡ lookup q d

module _ (env : Env) (sized : (k : Bytes) → length (env.sha256 k) ≡ 32) (b : Bytes)
    (valid : is_valid_bucket_name b ≡ true) (id : Bytes) where
  abbrev upload : FilePath
  upload = upload_path env b id

  abbrev pub combined_path : FilePath
  combined_path = upload_path env b id ++ (codes ".combined-" ++ env.suffix) ∷ []

  IsFilled-copy :
      (c x : Bytes) (d e : Disk)
      → IsFilled combined_path c d e
      → IsFilled combined_path (c ++ x) d (insert combined_path (file (raw (c ++ x))) e)
  IsFilled-copy c x d e h = record {
    layout = HasLayout-insert _ _ _ (sym (upload_file env sized b valid id _)) h.layout;
    filled = lookup-insert_self combined_path _ e;
    others = λ q n. lookup-insert_ne combined_path q _ e n ∙ h.others q n;
  }

  -- The first byte of the name in the upload's directory.
  fourth : FilePath → ℕ
  fourth (a ∷ b ∷ c ∷ (x ∷ d) ∷ p) = x
  fourth p = 0

  abbrev pub data_name : ℕ → Bytes
  data_name n = codes "part-" ++ (itoa n ++ codes ".data")

  abbrev pub meta_name : ℕ → Bytes
  meta_name n = codes "part-" ++ (itoa n ++ codes ".json")

  pub data_path-eq : (n : ℕ) → part_data_path upload n ≡ upload ++ data_name n ∷ []
  unfolding part_data_path push bytes_eq
  data_path-eq n = refl

  pub meta_path-eq : (n : ℕ) → part_metadata_path upload n ≡ upload ++ meta_name n ∷ []
  unfolding part_metadata_path push bytes_eq
  meta_path-eq n = refl

  -- A file of a part is not the combined file.
  part-ne-combined : (s : Bytes) → combined_path ≢ upload ++ (codes "part-" ++ s) ∷ []
  unfolding fourth
  part-ne-combined s e =
      let h : ◌≡◌ {A = ℕ} b'.' b'p' =
        rw (upload_path-valid env sized b id valid) at (ap fourth e) in
      omega (arith, h)

  read_piece :
      (s : Bytes) (c : Content) (x : Bytes) (d e : Disk)
      → IsFilled combined_path x d e
      → lookup (upload ++ (codes "part-" ++ s) ∷ []) d ≡ some (file c)
      → Gives (read_file (upload ++ (codes "part-" ++ s) ∷ [])) e (ok c) e
  read_piece s c x d e h q =
      Gives-read_file _ e h.layout (in_upload env sized b valid id (codes "part-" ++ s)) c
        (h.others _ (part-ne-combined s) ∙ q)

  module _ (p : Piece) (previous : ℕ) (x : Bytes) (d e : Disk) (h : HasPiece upload previous p d)
      (f : IsFilled combined_path x d e) where
    read_meta :
        Gives
          (read_file (part_metadata_path upload p.selected.part_number))
          e
          (ok (json (part_doc p.stored)))
          e
    read_meta =
        rw (meta_path-eq p.selected.part_number)
          (read_piece _ _ x d e f (rw (meta_path-eq p.selected.part_number) at h.meta_file))

    read_data :
        Gives (read_file (part_data_path upload p.selected.part_number)) e (ok (raw p.content)) e
    read_data =
        rw (data_path-eq p.selected.part_number)
          (read_piece _ _ x d e f (rw (data_path-eq p.selected.part_number) at h.data_file))

    same_etag : bytes_eq p.stored.etag p.selected.etag ≡ true
    same_etag = (bytes_eq_iff p.stored.etag p.selected.etag).1 h.etag

    combine_part-Gives :
        Gives
          (combine_part env upload combined_path previous p.selected)
          e
          (ok p.hash)
          (insert combined_path (file (raw (x ++ p.content))) e)
    unfolding combine_part
    combine_part-Gives =
        rw (h.number, h.next)
          (Gives-bind _ (Gives-attempt read_meta) (
            rw (same_etag, h.decoded)
              (Gives-bind _ (Gives-pure p.hash e) (
                Gives-bind _ (Gives-attempt read_data) (
                  Gives-bind _
                    (Gives-bind _
                      (Gives-attempt (
                        Gives-copy_to combined_path (record { content = p.content; intact = true })
                          x e refl f.filled))
                      (Gives-bind _ (Gives-attempt (Gives-close _)) (Gives-pure tt _)))
                    (Gives-pure p.hash _))))))

  -- The loop gives the bytes of the ETags, and leaves the bytes of the parts in their order.
  pub combine-Gives :
      (ps : List Piece) (previous : ℕ) (x : Bytes) (d e : Disk)
      → HasPieces upload previous ps d
      → IsFilled combined_path x d e
      → (e' : Disk) × Gives
          (combine env upload combined_path previous (selected_of ps))
          e
          (ok (hashes_of ps))
          e'
        × IsFilled combined_path (x ++ contents_of ps) d e'
  unfolding combine
  combine-Gives [] previous x d e h f =
      (e, Gives-pure [] e, subst (λ y. IsFilled combined_path y d e) (sym (append-nil x)) f)
  combine-Gives (p ∷ ps) previous x d e h f =
      let e1 = insert combined_path (file (raw (x ++ p.content))) e in
      let (e', g, f') =
        combine-Gives ps p.selected.part_number (x ++ p.content) d e1 h.1
          (IsFilled-copy x p.content d e f) in
      (
        e',
        Gives-bind _ (combine_part-Gives p previous x d e h.0 f)
            (Gives-bind _ g (Gives-pure (p.hash ++ hashes_of ps) e')),
        subst (λ y. IsFilled combined_path y d e') (append_assoc x p.content (contents_of ps)) f',
      )
