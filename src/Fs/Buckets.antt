-- ===== src/Fs/Buckets.antt =====
-- internal/storage/fs/fs.go: the bucket operations.
use home_store.Prelude.{Bool, true, false, not, Option, none, some, List, [], ◌∷◌, if◌then◌else◌}
use home_store.Prelude.Bytes.{Bytes, codes}
use home_store.Storage.{
  BucketInfo, bucket_not_found, bucket_exists as exists_error, bucket_not_empty,
  invalid_bucket_name, not_exist, other,
}
use home_store.Storage.Names.{is_valid_bucket_name}
use home_store.Os.Path.{dir_of}
use home_store.Os.Disk.{Node, dir, file, Content, json, bucket_doc}
use home_store.Os.Exec.{Result, ok, err, Fs, pure, raise, attempt, wrap, ◌>>=◌, ◌>>◌}
use home_store.Os.Calls.{Env, stat, read_file, read_dir, mkdir_all, write_file, remove_all}
use home_store.Fs.Paths.{bucket_metadata_path, bucket_path, objects_path}
use home_store.Fs.Metadata.{missing_as}

abbrev pub decode_bucket : Content → Option BucketInfo
decode_bucket (json (bucket_doc b)) = some b
decode_bucket _ = none

-- NewBackend makes the base path.
unfoldable pub new_backend : Fs Unit
new_backend = wrap (mkdir_all [])

abbrev pub existence : Result Node → Fs Bool
existence (ok _) = pure true
existence (err not_exist) = pure false
existence (err _) = raise other

unfoldable pub bucket_exists : Bytes → Fs Bool
bucket_exists name = do found ← attempt (stat (bucket_metadata_path name)); existence found

-- The check at the start of every object and multipart operation.
unfoldable pub require_bucket : Bytes → Fs Unit
unfolding bucket_exists
require_bucket bucket = do
  exists ← bucket_exists bucket
  if exists then pure tt else raise bucket_not_found

-- CreateBucket goes on only where the metadata file is known to be missing.
abbrev pub must_be_new : Result Node → Fs Unit
must_be_new (ok _) = raise exists_error
must_be_new (err not_exist) = pure tt
must_be_new (err _) = raise other

unfoldable pub create_bucket : Env → Bytes → Fs Unit
create_bucket env name = if not (is_valid_bucket_name name) then raise invalid_bucket_name else do
  let path = bucket_metadata_path name
  found ← attempt (stat path)
  must_be_new found
  wrap (mkdir_all (bucket_path name))
  let meta : BucketInfo = record { name = name; created_at = env.now; region = codes "us-east-1" }
  wrap (mkdir_all (dir_of path))
  wrap (write_file path (json (bucket_doc meta)))

abbrev pub must_be_there : Result Node → Fs Unit
must_be_there (ok _) = pure tt
must_be_there (err e) = raise (missing_as bucket_not_found e)

-- A missing directory has no entries.
abbrev pub must_be_empty : Result (List (Bytes × Node)) → Fs Unit
must_be_empty (ok []) = pure tt
must_be_empty (ok (e ∷ es)) = raise bucket_not_empty
must_be_empty (err not_exist) = pure tt
must_be_empty (err _) = raise other

unfoldable pub delete_bucket : Bytes → Fs Unit
delete_bucket name = do
  found ← attempt (stat (bucket_path name))
  must_be_there found
  listed ← attempt (read_dir (objects_path name))
  must_be_empty listed
  wrap (remove_all (bucket_path name))
  wrap (remove_all (dir_of (bucket_metadata_path name)))

abbrev pub keep_bucket : Result Content → List BucketInfo → List BucketInfo
keep_bucket (err e) rest = rest
keep_bucket (ok c) rest = elim (decode_bucket c) [ none ↦ rest | some b ↦ b ∷ rest ]

-- The loop of ListBuckets over the entries of the base path.
unfoldable pub read_buckets : List (Bytes × Node) → Fs (List BucketInfo)
read_buckets [] = pure []
read_buckets ((name, file _) ∷ es) = read_buckets es
read_buckets ((name, dir) ∷ es) = do
  found ← attempt (read_file (bucket_metadata_path name))
  rest ← read_buckets es
  pure (keep_bucket found rest)

unfoldable pub list_buckets : Fs (List BucketInfo)
unfolding read_buckets
list_buckets = do es ← wrap (read_dir []); read_buckets es

abbrev pub region_of : Result Content → Fs Bytes
region_of (err e) = raise (missing_as bucket_not_found e)
region_of (ok c) = elim (decode_bucket c) [ none ↦ raise other | some b ↦ pure b.region ]

unfoldable pub get_bucket_location : Bytes → Fs Bytes
get_bucket_location name = do
  found ← attempt (read_file (bucket_metadata_path name))
  region_of found
