-- ===== src/Fs/Touches/Buckets.antt =====
-- internal/storage/fs/fs.go: the paths that the bucket operations touch.
use home_store.Prelude.{not, true, false, Option, none, some, List, [], ◌∷◌}
use home_store.Prelude.Bytes.{Bytes}
use home_store.Storage.{not_exist, other, BucketInfo}
use home_store.Os.Path.{dir_of}
use home_store.Os.Disk.{Disk, Node, dir, file, Content}
use home_store.Os.Exec.{Result, ok, err, pure, raise}
use home_store.Os.Calls.{Env}
use home_store.Os.Stable.{
  Always, Keeps, StableFile, StableDir, StableTree, Keeps-pure, Keeps-raise, Keeps-attempt,
  Keeps-wrap, Keeps-if, Keeps-bind,
}
use home_store.Os.Stable.Rules.{
  Keeps-stat, Keeps-read_file, Keeps-read_dir, Keeps-mkdir_all, Keeps-write_file, Keeps-remove_all,
}
use home_store.Storage.Names.{is_valid_bucket_name}
use home_store.Fs.Paths.{bucket_metadata_path, bucket_path}
use home_store.Fs.Buckets.{
  existence, bucket_exists, require_bucket, must_be_new, create_bucket, must_be_there,
  must_be_empty, delete_bucket, read_buckets, list_buckets, region_of, decode_bucket,
  get_bucket_location,
}

module _ {P : Disk → Type 0} where
  existence-Keeps : (r : Result Node) → Keeps P Always (existence r)
  existence-Keeps (ok n) = Keeps-pure Always true tt
  existence-Keeps (err not_exist) = Keeps-pure Always false tt
  existence-Keeps (err _) = Keeps-raise Always _

  pub bucket_exists-Keeps : (b : Bytes) → Keeps P Always (bucket_exists b)
  unfolding bucket_exists
  bucket_exists-Keeps b = Keeps-bind _ _ (Keeps-attempt _ (Keeps-stat _)) (λ r _. existence-Keeps r)

  pub require_bucket-Keeps : (b : Bytes) → Keeps P Always (require_bucket b)
  unfolding require_bucket
  require_bucket-Keeps b =
      Keeps-bind _ _ (bucket_exists-Keeps b)
        (λ e _. Keeps-if e _ _ (λ _. Keeps-pure Always tt tt) (λ _. Keeps-raise Always _))

  must_be_new-Keeps : (r : Result Node) → Keeps P Always (must_be_new r)
  must_be_new-Keeps (ok n) = Keeps-raise Always _
  must_be_new-Keeps (err not_exist) = Keeps-pure Always tt tt
  must_be_new-Keeps (err _) = Keeps-raise Always _

  must_be_there-Keeps : (r : Result Node) → Keeps P Always (must_be_there r)
  must_be_there-Keeps (ok n) = Keeps-pure Always tt tt
  must_be_there-Keeps (err e) = Keeps-raise Always _

  must_be_empty-Keeps : (r : Result (List (Bytes × Node))) → Keeps P Always (must_be_empty r)
  must_be_empty-Keeps (ok []) = Keeps-pure Always tt tt
  must_be_empty-Keeps (ok (e ∷ es)) = Keeps-raise Always _
  must_be_empty-Keeps (err not_exist) = Keeps-pure Always tt tt
  must_be_empty-Keeps (err _) = Keeps-raise Always _

  -- CreateBucket touches the bucket's directory and its metadata file.
  pub create_bucket-Keeps :
      (env : Env) (b : Bytes)
      → StableDir P (bucket_path b)
      → StableDir P (dir_of (bucket_metadata_path b))
      → StableFile P (bucket_metadata_path b)
      → Keeps P Always (create_bucket env b)
  unfolding create_bucket
  create_bucket-Keeps env b data_dir meta_dir meta =
      Keeps-if (not (is_valid_bucket_name b)) _ _ (λ _. Keeps-raise Always _)
        (λ _. Keeps-bind _ _ (Keeps-attempt _ (Keeps-stat _)) (λ r _.
          Keeps-bind _ _ (must_be_new-Keeps r) (λ _ _.
            Keeps-bind _ _ (Keeps-wrap _ (Keeps-mkdir_all _ data_dir)) (λ _ _.
              Keeps-bind _ _ (Keeps-wrap _ (Keeps-mkdir_all _ meta_dir))
                (λ _ _. Keeps-wrap _ (Keeps-write_file _ _ meta))))))

  -- DeleteBucket touches the bucket's directory and its metadata directory.
  pub delete_bucket-Keeps :
      (b : Bytes)
      → StableTree P (bucket_path b)
      → StableTree P (dir_of (bucket_metadata_path b))
      → Keeps P Always (delete_bucket b)
  unfolding delete_bucket
  delete_bucket-Keeps b tree meta = Keeps-bind _ _ (Keeps-attempt _ (Keeps-stat _)) (λ r _.
      Keeps-bind _ _ (must_be_there-Keeps r) (λ _ _.
        Keeps-bind _ _ (Keeps-attempt _ (Keeps-read_dir _)) (λ es _.
          Keeps-bind _ _ (must_be_empty-Keeps es) (λ _ _.
            Keeps-bind _ _ (Keeps-wrap _ (Keeps-remove_all _ tree))
              (λ _ _. Keeps-wrap _ (Keeps-remove_all _ meta))))))

  read_buckets-Keeps : (es : List (Bytes × Node)) → Keeps P Always (read_buckets es)
  unfolding read_buckets
  read_buckets-Keeps [] = Keeps-pure Always _ tt
  read_buckets-Keeps ((name, file c) ∷ es) = read_buckets-Keeps es
  read_buckets-Keeps ((name, dir) ∷ es) =
      Keeps-bind _ _ (Keeps-attempt _ (Keeps-read_file _))
        (λ r _. Keeps-bind _ _ (read_buckets-Keeps es) (λ rest _. Keeps-pure Always _ tt))

  pub list_buckets-Keeps : Keeps P Always list_buckets
  unfolding list_buckets
  list_buckets-Keeps =
      Keeps-bind _ _ (Keeps-wrap _ (Keeps-read_dir _)) (λ es _. read_buckets-Keeps es)

  decoded-Keeps :
      (o : Option BucketInfo)
      → Keeps {A = Bytes} P Always (elim o [ none ↦ raise other | some b ↦ pure b.region ])
  decoded-Keeps none = Keeps-raise Always _
  decoded-Keeps (some b) = Keeps-pure Always _ tt

  region_of-Keeps : (r : Result Content) → Keeps P Always (region_of r)
  region_of-Keeps (err e) = Keeps-raise Always _
  region_of-Keeps (ok c) = decoded-Keeps (decode_bucket c)

  pub get_bucket_location-Keeps : (b : Bytes) → Keeps P Always (get_bucket_location b)
  unfolding get_bucket_location
  get_bucket_location-Keeps b =
      Keeps-bind _ _ (Keeps-attempt _ (Keeps-read_file _)) (λ r _. region_of-Keeps r)
