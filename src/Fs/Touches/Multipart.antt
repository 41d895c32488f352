-- ===== src/Fs/Touches/Multipart.antt =====
-- internal/storage/fs/multipart.go: the paths that the multipart operations touch.
use home_store.Prelude.{
  ℕ, ◌≡◌, refl, not, ◌||◌, ◌==◌, Option, none, some, List, [], ◌∷◌, ◌++◌, subst, sym,
}
use home_store.Prelude.Bytes.{Bytes, bytes_eq}
use home_store.Prelude.Sort.{sort_by}
use home_store.Storage.{
  Error, not_exist, other, invalid_part, ObjectMeta, MultipartUpload, MultipartPart, CompletedPart,
}
use home_store.Os.Path.{FilePath}
use home_store.Os.Disk.{Disk, Node, dir, file, Content}
use home_store.Os.Exec.{Result, ok, err, pure, raise, attempt, ◌>>◌}
use home_store.Os.Calls.{Env, Reader, close, remove}
use home_store.Os.Stable.{
  Always, Keeps, StableFile, StableDir, StableTree, Keeps-pure, Keeps-raise, Keeps-attempt,
  Keeps-wrap, Keeps-if, Keeps-bind, Keeps-deferred, Keeps-call,
}
use home_store.Os.Stable.Rules.{
  Keeps-read_file, Keeps-read_dir, Keeps-mkdir_all, Keeps-write_file, Keeps-create_temp,
  Keeps-copy_to, Keeps-close, Keeps-rename, Keeps-remove, Keeps-remove_all,
}
use home_store.Fs.Paths.{upload_path, hex_encode}
use home_store.Fs.Parts.{valid_part_number, part_data_path, part_metadata_path, is_part_metadata}
use home_store.Fs.Multipart.{
  read_random, read_parts, decode_part, read_uploads, read_upload_dir, list_multipart_uploads,
  create_multipart_upload, matching, check_upload, read_upload, store_part, upload_part, list_parts,
  give_up, part_hash, copy_part, combine_part, combine, finish_upload, no_parts,
  complete_multipart_upload, abort_multipart_upload, decode_upload, by_selected,
}
use home_store.Fs.Touches.Objects.{
  StableObject, put_object-Keeps, put_metadata-Keeps, head_object-Keeps,
}
use home_store.Fs.Touches.Buckets.{require_bucket-Keeps}

-- Stable at the directory of an upload and at every file in it.
pub record StableUpload (P : Disk → Type 0) (upload : FilePath) : Type 0 where
  pub place : StableDir P upload
  pub files : (name : Bytes) → StableFile P (upload ++ name ∷ [])
  pub tree : StableTree P upload

module _ {P : Disk → Type 0} where
  Keeps-read_random : (r : Bytes) → Keeps P (λ x. x ≡ r) (read_random r)
  unfolding read_random
  Keeps-read_random r = Keeps-call _ _ _ (λ d h. (h, refl)) (λ keep d h. h)

  module _ (env : Env) where
    matching-Keeps :
        (k id : Bytes) (p : FilePath) (o : Option MultipartUpload)
        → Keeps P (λ r. r.1 ≡ p) (matching env k id p o)
    matching-Keeps k id p none = Keeps-raise _ _
    matching-Keeps k id p (some u) =
        Keeps-if (not (bytes_eq u.upload_id id) || not (bytes_eq u.key k)) _ _
          (λ _. Keeps-raise _ _) (λ _. Keeps-pure _ _ refl)

    check_upload-Keeps :
        (k id : Bytes) (p : FilePath) (r : Result Content)
        → Keeps P (λ r. r.1 ≡ p) (check_upload env k id p r)
    check_upload-Keeps k id p (err e) = Keeps-raise _ _
    check_upload-Keeps k id p (ok c) = matching-Keeps k id p (decode_upload c)

    -- The directory that readUpload returns is the one that the identifier names.
    read_upload-Keeps :
        (b k id : Bytes) → Keeps P (λ r. r.1 ≡ upload_path env b id) (read_upload env b k id)
    unfolding read_upload
    read_upload-Keeps b k id = Keeps-bind _ _ (require_bucket-Keeps b) (λ _ _.
        Keeps-bind _ _ (Keeps-attempt _ (Keeps-read_file _)) (λ r _. check_upload-Keeps k id _ r))

    give_up-Keeps : {A : Type 0} (e : Error) → Keeps {A = A} P Always (give_up env e)
    give_up-Keeps e = Keeps-bind _ _ (Keeps-attempt _ Keeps-close) (λ _ _. Keeps-raise Always e)

    copied-Keeps :
        (r : Result ℕ)
        → Keeps {A = ℕ} P Always
            (elim r [ ok size ↦ pure size | err e ↦ (do attempt close; raise other) ])
    copied-Keeps (ok size) = Keeps-pure Always size tt
    copied-Keeps (err e) = give_up-Keeps other

    decoded-Keeps :
        (o : Option MultipartPart)
        → Keeps {A = MultipartPart} P Always (elim o [ none ↦ raise other | some part ↦ pure part ])
    decoded-Keeps none = Keeps-raise Always _
    decoded-Keeps (some part) = Keeps-pure Always part tt

    hash-Keeps :
        (o : Option Bytes)
        → Keeps {A = Bytes} P Always (elim o [ none ↦ give_up env invalid_part | some h ↦ pure h ])
    hash-Keeps none = give_up-Keeps invalid_part
    hash-Keeps (some h) = Keeps-pure Always h tt

    finished-Keeps :
        (r : Result ℕ)
        → Keeps {A = Unit} P Always (elim r [ ok size ↦ pure tt | err e ↦ give_up env other ])
    finished-Keeps (ok size) = Keeps-pure Always tt tt
    finished-Keeps (err e) = give_up-Keeps other

    read_parts-Keeps : (p : FilePath) (es : List (Bytes × Node)) → Keeps P Always (read_parts p es)
    unfolding read_parts
    read_parts-Keeps p [] = Keeps-pure Always _ tt
    read_parts-Keeps p ((name, dir) ∷ es) = read_parts-Keeps p es
    read_parts-Keeps p ((name, file c) ∷ es) =
        Keeps-if (not (is_part_metadata name)) _ _ (λ _. read_parts-Keeps p es)
          (λ _. Keeps-bind _ _ (Keeps-wrap _ (Keeps-read_file _)) (λ c _.
            Keeps-bind _ _ (decoded-Keeps (decode_part c)) (λ part _.
              Keeps-bind _ _ (read_parts-Keeps p es) (λ rest _. Keeps-pure Always _ tt))))

    pub list_parts-Keeps : (b k id : Bytes) → Keeps P Always (list_parts env b k id)
    unfolding list_parts
    list_parts-Keeps b k id = Keeps-bind _ _ (read_upload-Keeps b k id) (λ r _.
        Keeps-bind _ _ (Keeps-wrap _ (Keeps-read_dir _))
          (λ es _. Keeps-bind _ _ (read_parts-Keeps _ es) (λ parts _. Keeps-pure Always _ tt)))

    -- CreateMultipartUpload touches the directory that the random identifier names.
    pub create_multipart_upload-Keeps :
        (b k : Bytes) (m : ObjectMeta)
        → StableUpload P (upload_path env b (hex_encode env.random))
        → Keeps P Always (create_multipart_upload env b k m)
    unfolding create_multipart_upload
    create_multipart_upload-Keeps b k m s = Keeps-bind _ _ (require_bucket-Keeps b) (λ _ _.
        Keeps-bind _ _ (Keeps-wrap _ (Keeps-read_random env.random)) (λ x e.
          let t = subst (λ y. StableUpload P (upload_path env b (hex_encode y))) (sym e) s in
          Keeps-bind _ _ (Keeps-wrap _ (Keeps-mkdir_all _ t.place)) (λ _ _.
            Keeps-bind _ _ (Keeps-wrap _ (Keeps-write_file _ _ (t.files _)))
              (λ _ _. Keeps-pure Always _ tt))))

  module _ (env : Env) (upload : FilePath) (s : StableUpload P upload) where
    store_part-Keeps :
        (name : Bytes) (n : ℕ) (body : Reader)
        → Keeps P Always (store_part env upload (upload ++ name ∷ []) n body)
    unfolding store_part part_data_path part_metadata_path
    store_part-Keeps name n body =
        Keeps-bind _ _ (Keeps-attempt _ (Keeps-copy_to _ body (s.files name))) (λ r _.
          Keeps-bind _ _ (copied-Keeps env r) (λ size _.
            Keeps-bind _ _ (Keeps-wrap _ Keeps-close) (λ _ _.
              Keeps-bind _ _ (Keeps-wrap _ (Keeps-rename _ _ (s.files name) (s.files _))) (λ _ _.
                Keeps-bind _ _ (Keeps-wrap _ (Keeps-write_file _ _ (s.files _)))
                  (λ _ _. Keeps-pure Always _ tt)))))

    combine_part-Keeps :
        (name : Bytes) (previous : ℕ) (selected : CompletedPart)
        → Keeps P Always (combine_part env upload (upload ++ name ∷ []) previous selected)
    unfolding combine_part
    combine_part-Keeps name previous selected =
        Keeps-if (not (valid_part_number selected.part_number) || selected.part_number == previous)
          _ _ (λ _. give_up-Keeps env invalid_part)
          (λ _. Keeps-bind _ _ (Keeps-attempt _ (Keeps-read_file _)) (λ r _.
            Keeps-bind _ _ (hash-Keeps env (part_hash env selected r)) (λ h _.
              Keeps-bind _ _ (Keeps-attempt _ (Keeps-read_file _))
                (λ o _. Keeps-bind _ _ (copy_keeps o) (λ _ _. Keeps-pure Always h tt)))))
      where
        copy_keeps : (o : Result Content) → Keeps P Always (copy_part env (upload ++ name ∷ []) o)
        copy_keeps (err e) = give_up-Keeps env invalid_part
        copy_keeps (ok c) =
            Keeps-bind _ _ (Keeps-attempt _ (Keeps-copy_to _ _ (s.files name)))
              (λ r _. Keeps-bind _ _ (Keeps-attempt _ Keeps-close) (λ _ _. finished-Keeps env r))

    combine-Keeps :
        (name : Bytes) (previous : ℕ) (parts : List CompletedPart)
        → Keeps P Always (combine env upload (upload ++ name ∷ []) previous parts)
    unfolding combine
    combine-Keeps name previous [] = Keeps-pure Always [] tt
    combine-Keeps name previous (p ∷ ps) =
        Keeps-bind _ _ (combine_part-Keeps name previous p) (λ h _.
          Keeps-bind _ _ (combine-Keeps name p.part_number ps) (λ hs _. Keeps-pure Always _ tt))

    finish_upload-Keeps :
        (name b k : Bytes) (u : MultipartUpload) (parts : List CompletedPart)
        → StableObject P env b k
        → Keeps P Always (finish_upload env b k u upload (upload ++ name ∷ []) parts)
    unfolding finish_upload
    finish_upload-Keeps name b k u parts o = Keeps-bind _ _ (combine-Keeps name 0 parts) (λ hs _.
        Keeps-bind _ _ (Keeps-wrap _ Keeps-close) (λ _ _.
          Keeps-bind _ _ (Keeps-wrap _ (Keeps-read_file _)) (λ c _.
            Keeps-bind _ _ (put_object-Keeps env b k o _ _) (λ _ _.
              Keeps-bind _ _ (head_object-Keeps env b k) (λ m _.
                Keeps-bind _ _ (put_metadata-Keeps env b k o _) (λ _ _.
                  Keeps-bind _ _ (Keeps-wrap _ (Keeps-remove_all _ s.tree))
                    (λ _ _. Keeps-pure Always _ tt)))))))

module _ {P : Disk → Type 0} (env : Env) (b k id : Bytes)
    (s : StableUpload P (upload_path env b id)) where
  at_path : (p : FilePath) → p ≡ upload_path env b id → StableUpload P p
  at_path p e = subst (StableUpload P) (sym e) s

  remove_temp :
      (upload t : FilePath) (name : Bytes)
      → upload ≡ upload_path env b id
      → t ≡ upload ++ name ∷ []
      → Keeps P Always (do attempt (remove t); pure tt)
  remove_temp upload t name e f =
      Keeps-bind _ _
        (Keeps-attempt _
          (Keeps-remove _ (subst (StableFile P) (sym f) ((at_path upload e).files name))))
        (λ _ _. Keeps-pure Always tt tt)

  -- UploadPart touches the directory of its upload.
  pub upload_part-Keeps : (n : ℕ) (body : Reader) → Keeps P Always (upload_part env b k id n body)
  unfolding upload_part
  upload_part-Keeps n body =
      Keeps-if (not (valid_part_number n)) _ _ (λ _. Keeps-raise Always _)
        (λ _. Keeps-bind _ _ (read_upload-Keeps env b k id) (λ (u, p) e.
          Keeps-bind _ _ (Keeps-wrap _ (Keeps-create_temp p _ _ ((at_path p e).files _))) (λ t f.
            Keeps-deferred _ _ (remove_temp p t _ e f) (
              subst (λ x. Keeps P Always (store_part env p x n body)) (sym f)
                (store_part-Keeps env p (at_path p e) _ n body)))))

  -- AbortMultipartUpload touches the directory of its upload.
  pub abort_multipart_upload-Keeps : Keeps P Always (abort_multipart_upload env b k id)
  unfolding abort_multipart_upload
  abort_multipart_upload-Keeps =
      Keeps-bind _ _ (read_upload-Keeps env b k id)
        (λ (u, p) e. Keeps-wrap _ (Keeps-remove_all _ ((at_path p e).tree)))

  -- CompleteMultipartUpload touches the directory of its upload and its object.
  pub complete_multipart_upload-Keeps :
      (parts : List CompletedPart)
      → StableObject P env b k
      → Keeps P Always (complete_multipart_upload env b k id parts)
  unfolding complete_multipart_upload
  complete_multipart_upload-Keeps parts o =
      Keeps-bind _ _ (read_upload-Keeps env b k id) (λ (u, p) e.
        Keeps-if (no_parts env parts) _ _ (λ _. Keeps-raise Always _)
          (λ _.
            Keeps-bind _ _ (Keeps-wrap _ (Keeps-create_temp p _ _ ((at_path p e).files _))) (λ t f.
              Keeps-deferred _ _ (remove_temp p t _ e f) (
                subst
                  (λ x. Keeps P Always (finish_upload env b k u p x (sort_by by_selected parts)))
                  (sym f)
                  (finish_upload-Keeps env p (at_path p e) _ b k u (sort_by by_selected parts)
                    o)))))

module _ {P : Disk → Type 0} where
  read_uploads-Keeps :
      (p : FilePath) (es : List (Bytes × Node)) → Keeps P Always (read_uploads p es)
  unfolding read_uploads
  read_uploads-Keeps p [] = Keeps-pure Always _ tt
  read_uploads-Keeps p ((name, file c) ∷ es) = read_uploads-Keeps p es
  read_uploads-Keeps p ((name, dir) ∷ es) =
      Keeps-bind _ _ (Keeps-attempt _ (Keeps-read_file _))
        (λ r _. Keeps-bind _ _ (read_uploads-Keeps p es) (λ rest _. Keeps-pure Always _ tt))

  read_upload_dir-Keeps :
      (p : FilePath) (r : Result (List (Bytes × Node))) → Keeps P Always (read_upload_dir p r)
  read_upload_dir-Keeps p (ok es) =
      Keeps-bind _ _ (read_uploads-Keeps p es) (λ us _. Keeps-pure Always _ tt)
  read_upload_dir-Keeps p (err not_exist) = Keeps-pure Always _ tt
  read_upload_dir-Keeps p (err _) = Keeps-raise Always _

  pub list_multipart_uploads-Keeps : (b : Bytes) → Keeps P Always (list_multipart_uploads b)
  unfolding list_multipart_uploads
  list_multipart_uploads-Keeps b = Keeps-bind _ _ (require_bucket-Keeps b) (λ _ _.
      Keeps-bind _ _ (Keeps-attempt _ (Keeps-read_dir _)) (λ r _. read_upload_dir-Keeps _ r))
