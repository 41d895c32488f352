-- ===== src/Fs/Touches/Objects.antt =====
-- internal/storage/fs/objects.go and metadata.go: the paths that the object operations touch.
use home_store.Prelude.{◌&&◌, Option, none, some, List, [], ◌∷◌, ◌++◌, subst, sym}
use home_store.Prelude.Bytes.{Bytes, codes, bytes_eq}
use home_store.Storage.{not_exist, other, ObjectMeta, ListOptions}
use home_store.Os.Path.{FilePath, dir_of}
use home_store.Os.Disk.{Disk, Node, dir, file, Content}
use home_store.Os.Exec.{Result, ok, err, pure, raise}
use home_store.Os.Calls.{Env, Reader}
use home_store.Os.Stable.{
  Always, Keeps, StableFile, StableDir, StableTree, Keeps-pure, Keeps-raise, Keeps-attempt,
  Keeps-wrap, Keeps-if, Keeps-bind, Keeps-deferred,
}
use home_store.Os.Stable.Rules.{
  Keeps-read_file, Keeps-read_dir, Keeps-mkdir_all, Keeps-write_file, Keeps-create_temp,
  Keeps-copy_to, Keeps-close, Keeps-rename, Keeps-remove, Keeps-remove_all,
}
use home_store.Fs.Paths.{object_path, metadata_path, metadata_dir}
use home_store.Fs.Metadata.{
  ignore_missing, decode_meta, put_metadata, read_meta, get_metadata, delete_metadata, read_entries,
  read_listing, list_metadata, delete_bucket_metadata,
}
use home_store.Fs.Objects.{
  put_object, open_result, get_object, then_metadata, delete_object, head_object, copy_object,
  rename_object,
}
use home_store.Fs.Listing.{list_objects}
use home_store.Fs.Touches.Buckets.{require_bucket-Keeps}

-- The temporary file of PutObject.
abbrev pub temp_path : Env → Bytes → Bytes → FilePath
temp_path env b k = dir_of (object_path env b k) ++ (codes ".tmp-" ++ env.suffix) ∷ []

-- Stable at the data, the metadata and the temporary file of one object.
pub record StableObject (P : Disk → Type 0) (env : Env) (b k : Bytes) : Type 0 where
  pub data_dir : StableDir P (dir_of (object_path env b k))
  pub data_file : StableFile P (object_path env b k)
  pub temp_file : StableFile P (temp_path env b k)
  pub meta_dir : StableDir P (dir_of (metadata_path env b k))
  pub meta_file : StableFile P (metadata_path env b k)

ignore_missing-Keeps : {P : Disk → Type 0} (r : Result Unit) → Keeps P Always (ignore_missing r)
ignore_missing-Keeps (ok _) = Keeps-pure Always tt tt
ignore_missing-Keeps (err not_exist) = Keeps-pure Always tt tt
ignore_missing-Keeps (err _) = Keeps-raise Always _

module _ {P : Disk → Type 0} (env : Env) (b k : Bytes) where
  decoded-Keeps :
      (o : Option ObjectMeta)
      → Keeps {A = ObjectMeta} P Always (elim o [ none ↦ raise other | some m ↦ pure m ])
  decoded-Keeps none = Keeps-raise Always _
  decoded-Keeps (some m) = Keeps-pure Always _ tt

  read_meta-Keeps : (r : Result Content) → Keeps P Always (read_meta env r)
  read_meta-Keeps (err e) = Keeps-raise Always _
  read_meta-Keeps (ok c) = decoded-Keeps (decode_meta c)

  pub get_metadata-Keeps : Keeps P Always (get_metadata env b k)
  unfolding get_metadata
  get_metadata-Keeps =
      Keeps-bind _ _ (Keeps-attempt _ (Keeps-read_file _)) (λ r _. read_meta-Keeps r)

  pub head_object-Keeps : Keeps P Always (head_object env b k)
  unfolding head_object
  head_object-Keeps = Keeps-bind _ _ (require_bucket-Keeps b) (λ _ _. get_metadata-Keeps)

  open_result-Keeps : (m : ObjectMeta) (r : Result Content) → Keeps P Always (open_result env m r)
  open_result-Keeps m (err e) = Keeps-raise Always _
  open_result-Keeps m (ok c) = Keeps-pure Always _ tt

  pub get_object-Keeps : Keeps P Always (get_object env b k)
  unfolding get_object
  get_object-Keeps = Keeps-bind _ _ (require_bucket-Keeps b) (λ _ _.
      Keeps-bind _ _ get_metadata-Keeps (λ m _.
        Keeps-bind _ _ (Keeps-attempt _ (Keeps-read_file _)) (λ r _. open_result-Keeps m r)))

module _ {P : Disk → Type 0} (env : Env) (b k : Bytes) (s : StableObject P env b k) where
  pub put_metadata-Keeps : (m : ObjectMeta) → Keeps P Always (put_metadata env b k m)
  unfolding put_metadata
  put_metadata-Keeps m =
      Keeps-bind _ _ (Keeps-wrap _ (Keeps-mkdir_all _ s.meta_dir))
        (λ _ _. Keeps-wrap _ (Keeps-write_file _ _ s.meta_file))

  delete_metadata-Keeps : Keeps P Always (delete_metadata env b k)
  unfolding delete_metadata
  delete_metadata-Keeps =
      Keeps-bind _ _ (Keeps-attempt _ (Keeps-remove _ s.meta_file)) (λ r _. ignore_missing-Keeps r)

  then_metadata-Keeps : (r : Result Unit) → Keeps P Always (then_metadata env b k r)
  then_metadata-Keeps (ok _) = delete_metadata-Keeps
  then_metadata-Keeps (err not_exist) = Keeps-pure Always tt tt
  then_metadata-Keeps (err _) = Keeps-raise Always _

  -- DeleteObject touches the data and the metadata of its object.
  pub delete_object-Keeps : Keeps P Always (delete_object env b k)
  unfolding delete_object
  delete_object-Keeps = Keeps-bind _ _ (require_bucket-Keeps b) (λ _ _.
      Keeps-bind _ _ (Keeps-attempt _ (Keeps-remove _ s.data_file)) (λ r _. then_metadata-Keeps r))

  -- PutObject touches the data, the metadata and the temporary file of its object.
  pub put_object-Keeps :
      (body : Reader) (m : ObjectMeta) → Keeps P Always (put_object env b k body m)
  unfolding put_object
  put_object-Keeps body m = Keeps-bind _ _ (require_bucket-Keeps b) (λ _ _.
      Keeps-bind _ _ (Keeps-wrap _ (Keeps-mkdir_all _ s.data_dir)) (λ _ _.
        Keeps-bind _ _ (Keeps-wrap _ (Keeps-create_temp _ _ _ s.temp_file)) (λ tmp e.
          let temp = subst (StableFile P) (sym e) s.temp_file in
          Keeps-deferred _ _
            (Keeps-bind _ _ (Keeps-attempt _ Keeps-close) (λ _ _.
              Keeps-bind _ _ (Keeps-attempt _ (Keeps-remove _ temp))
                (λ _ _. Keeps-pure Always tt tt)))
            (Keeps-bind _ _ (Keeps-wrap _ (Keeps-copy_to _ body temp)) (λ written _.
              Keeps-bind _ _ (Keeps-wrap _ Keeps-close) (λ _ _.
                Keeps-bind _ _ (Keeps-wrap _ (Keeps-rename _ _ temp s.data_file))
                  (λ _ _. put_metadata-Keeps _)))))))

module _ {P : Disk → Type 0} (env : Env) (b k b' k' : Bytes) (t : StableObject P env b' k') where
  -- CopyObject touches the object at the destination.
  pub copy_object-Keeps : Keeps P Always (copy_object env b k b' k')
  unfolding copy_object
  copy_object-Keeps = Keeps-bind _ _ (get_object-Keeps env b k) (λ (r, m) _.
      Keeps-bind _ _ (put_object-Keeps env b' k' t _ _) (λ _ _. get_metadata-Keeps env b' k'))

  -- RenameObject touches the objects at both ends.
  pub rename_object-Keeps : StableObject P env b k → Keeps P Always (rename_object env b k b' k')
  unfolding rename_object
  rename_object-Keeps s =
      Keeps-if (bytes_eq b b' && bytes_eq k k') _ _ (λ _. head_object-Keeps env b k)
        (λ _.
          Keeps-bind _ _ copy_object-Keeps
            (λ m _. Keeps-bind _ _ (delete_object-Keeps env b k s) (λ _ _. Keeps-pure Always m tt)))

module _ {P : Disk → Type 0} where
  read_entries-Keeps :
      (p : FilePath) (prefix : Bytes) (es : List (Bytes × Node))
      → Keeps P Always (read_entries p prefix es)
  unfolding read_entries
  read_entries-Keeps p prefix [] = Keeps-pure Always _ tt
  read_entries-Keeps p prefix ((name, dir) ∷ es) = read_entries-Keeps p prefix es
  read_entries-Keeps p prefix ((name, file c) ∷ es) =
      Keeps-bind _ _ (Keeps-attempt _ (Keeps-read_file _))
        (λ r _. Keeps-bind _ _ (read_entries-Keeps p prefix es) (λ rest _. Keeps-pure Always _ tt))

  read_listing-Keeps :
      (p : FilePath) (prefix : Bytes) (r : Result (List (Bytes × Node)))
      → Keeps P Always (read_listing p prefix r)
  read_listing-Keeps p prefix (ok es) = read_entries-Keeps p prefix es
  read_listing-Keeps p prefix (err not_exist) = Keeps-pure Always _ tt
  read_listing-Keeps p prefix (err _) = Keeps-raise Always _

  pub list_metadata-Keeps : (b prefix : Bytes) → Keeps P Always (list_metadata b prefix)
  unfolding list_metadata
  list_metadata-Keeps b prefix =
      Keeps-bind _ _ (Keeps-attempt _ (Keeps-read_dir _)) (λ r _. read_listing-Keeps _ prefix r)

  pub list_objects-Keeps : (b : Bytes) (o : ListOptions) → Keeps P Always (list_objects b o)
  unfolding list_objects
  list_objects-Keeps b o =
      Keeps-bind _ _ (require_bucket-Keeps b)
        (λ _ _. Keeps-bind _ _ (list_metadata-Keeps b _) (λ m _. Keeps-pure Always _ tt))

  pub delete_bucket_metadata-Keeps :
      (b : Bytes) → StableTree P (metadata_dir b) → Keeps P Always (delete_bucket_metadata b)
  unfolding delete_bucket_metadata
  delete_bucket_metadata-Keeps b s =
      Keeps-bind _ _ (Keeps-attempt _ (Keeps-remove_all _ s)) (λ r _. ignore_missing-Keeps r)
