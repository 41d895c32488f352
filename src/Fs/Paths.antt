-- ===== src/Fs/Paths.antt =====
-- internal/storage/fs: where the backend puts its files (fs.go, objects.go, metadata.go).
-- Paths are relative to `basePath`.
pub mod Shape
use home_store.Prelude.{ℕ, ◌+◌, ◌-◌, ◌/◌, ◌%◌, ltb, [], ◌∷◌, ◌++◌, if◌then◌else◌}
use home_store.Prelude.Bytes.{Bytes, codes}
use home_store.Os.Path.{FilePath, join_path}
use home_store.Os.Calls.{Env}

abbrev pub hex_digit : ℕ → ℕ
hex_digit n = if ltb n 10 then b'0' + n else b'a' + n - 10

-- hex.EncodeToString
unfoldable pub hex_encode : Bytes → Bytes
hex_encode [] = []
hex_encode (b ∷ s) = hex_digit (b / 16 % 16) ∷ hex_digit (b % 16) ∷ hex_encode s

unfoldable pub bucket_metadata_path : Bytes → FilePath
unfolding join_path
bucket_metadata_path name =
    join_path (join_path (join_path [] (codes "bucket_metadata")) name) (codes ".bucket.json")

unfoldable pub bucket_path : Bytes → FilePath
unfolding join_path
bucket_path name = join_path [] name

unfoldable pub objects_path : Bytes → FilePath
unfolding bucket_path
objects_path bucket = join_path (bucket_path bucket) (codes ".objects")

-- The directory `.metadata` of a bucket, as ListMetadata and DeleteBucketMetadata name it.
unfoldable pub metadata_dir : Bytes → FilePath
unfolding join_path
metadata_dir bucket = join_path (join_path [] bucket) (codes ".metadata")

unfoldable pub multipart_path : Bytes → FilePath
unfolding bucket_path
multipart_path bucket = join_path (bucket_path bucket) (codes ".multipart")

module _ (env : Env) where
  unfoldable pub object_file_name : Bytes → Bytes
  unfolding hex_encode
  object_file_name key = hex_encode (env.sha256 key)

  unfoldable pub object_path : Bytes → Bytes → FilePath
  unfolding objects_path object_file_name
  object_path bucket key = join_path (objects_path bucket) (object_file_name key)

  unfoldable pub metadata_path : Bytes → Bytes → FilePath
  unfolding metadata_dir object_file_name
  metadata_path bucket key = join_path (metadata_dir bucket) (object_file_name key ++ codes ".json")

  unfoldable pub upload_path : Bytes → Bytes → FilePath
  unfolding multipart_path object_file_name
  upload_path bucket upload_id = join_path (multipart_path bucket) (object_file_name upload_id)
