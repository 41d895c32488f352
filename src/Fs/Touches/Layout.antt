-- ===== src/Fs/Touches/Layout.antt =====
-- Every operation keeps the layout of the data directory, also when calls inside it fail.
use home_store.Prelude.{◌≡◌, ◌≢◌, refl, ap, true, false, [], ◌∷◌, arith, length, all}
use home_store.Prelude.Bytes.{Bytes, codes, bytes_eq_iff}
use home_store.Storage.Names.{is_valid_bucket_name}
use home_store.Os.Path.{dir_of, above}
use home_store.Os.Calls.{Env}
use home_store.Os.Layout.{
  HasLayout, HasLayout-file, HasLayout-dir, HasLayout-tree, dir_path, dirs_to,
}
use home_store.Fs.Paths.{upload_path, object_file_name}
use home_store.Fs.Paths.Shape.{object_path-valid, metadata_path-valid, upload_path-valid}
use home_store.Fs.Touches.Objects.{StableObject}
use home_store.Fs.Touches.Multipart.{StableUpload}

-- The two kinds of places that hold the files of objects.
leaf_file : (b c n : Bytes) → c ≢ codes ".multipart" → dir_path (b ∷ c ∷ n ∷ []) ≡ false
unfolding dir_path
leaf_file b c n h = ground (arith, bytes_eq_iff c (codes ".multipart"))

leaf_dir : (b c : Bytes) → all dir_path (dirs_to (b ∷ c ∷ [])) ≡ true
unfolding dir_path above
leaf_dir b c = refl

metadata_name_invalid : is_valid_bucket_name (codes "bucket_metadata") ≡ false
unfolding is_valid_bucket_name
metadata_name_invalid = refl

-- No bucket has the name of the directory of the bucket metadata.
pub valid-ne-metadata : (b : Bytes) → is_valid_bucket_name b ≡ true → b ≢ codes "bucket_metadata"
valid-ne-metadata b valid e = cc (ap is_valid_bucket_name e, metadata_name_invalid)

upload_dir :
    (b n : Bytes)
    → is_valid_bucket_name b ≡ true
    → all dir_path (dirs_to (b ∷ codes ".multipart" ∷ n ∷ [])) ≡ true
unfolding dir_path above
upload_dir b n valid =
    ground (arith, bytes_eq_iff b (codes "bucket_metadata"), valid-ne-metadata b valid)

upload_file : (b c n name : Bytes) → dir_path (b ∷ c ∷ n ∷ name ∷ []) ≡ false
unfolding dir_path
upload_file b c n name = refl

module _ (env : Env) (sized : (k : Bytes) → length (env.sha256 k) ≡ 32) where
  module _ (b k : Bytes) (valid : is_valid_bucket_name b ≡ true) where
    pub object-HasLayout : StableObject HasLayout env b k
    unfolding dir_of
    object-HasLayout = record {
      data_dir = HasLayout-dir _ (rw (object_path-valid env sized b k valid) (leaf_dir b _));
      data_file =
          HasLayout-file _ (rw (object_path-valid env sized b k valid) (leaf_file b _ _ (cc)));
      temp_file =
          HasLayout-file _ (rw (object_path-valid env sized b k valid) (leaf_file b _ _ (cc)));
      meta_dir = HasLayout-dir _ (rw (metadata_path-valid env sized b k valid) (leaf_dir b _));
      meta_file =
          HasLayout-file _ (rw (metadata_path-valid env sized b k valid) (leaf_file b _ _ (cc)));
    }

  -- The directory of an upload.
  pub upload-HasLayout :
      (b id : Bytes) → is_valid_bucket_name b ≡ true → StableUpload HasLayout (upload_path env b id)
  upload-HasLayout b id valid = rw (upload_path-valid env sized b id valid) (record {
    place = HasLayout-dir _ (upload_dir b (object_file_name env id) valid);
    files = λ name. HasLayout-file _ (upload_file b _ _ name);
    tree = HasLayout-tree _;
  })
