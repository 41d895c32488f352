-- ===== src/Fs/Metadata.antt =====
-- internal/storage/fs/metadata.go: the metadata store.
use home_store.Prelude.{Option, none, some, List, [], ◌∷◌, ◌++◌, map, if◌then◌else◌}
use home_store.Prelude.Bytes.{Bytes, has_prefix}
use home_store.Storage.{Error, ObjectMeta, object_not_found, not_exist, other}
use home_store.Os.Path.{FilePath, dir_of}
use home_store.Os.Disk.{Node, dir, file, Content, json, meta_doc}
use home_store.Os.Exec.{Result, ok, err, Fs, pure, raise, attempt, wrap, ◌>>=◌, ◌>>◌}
use home_store.Os.Calls.{Env, read_file, read_dir, mkdir_all, write_file, remove, remove_all}
use home_store.Fs.Paths.{metadata_path, metadata_dir}

-- `os.IsNotExist(err)` makes one error, anything else is wrapped.
abbrev pub missing_as : Error → Error → Error
missing_as e not_exist = e
missing_as e _ = other

-- `err != nil && !os.IsNotExist(err)` is the failure.
abbrev pub ignore_missing : Result Unit → Fs Unit
ignore_missing (ok _) = pure tt
ignore_missing (err not_exist) = pure tt
ignore_missing (err _) = raise other

-- json.Unmarshal into an ObjectMeta.
abbrev pub decode_meta : Content → Option ObjectMeta
decode_meta (json (meta_doc m)) = some m
decode_meta _ = none

-- filepath.Join(metadataDir, entry.Name())
abbrev pub entry_path : FilePath → Bytes → FilePath
entry_path p name = p ++ name ∷ []

module _ (env : Env) where
  -- A value after json.Marshal and json.Unmarshal.
  abbrev pub json_meta : ObjectMeta → ObjectMeta
  json_meta m = record m {
    key = env.json_string m.key;
    content_type = env.json_string m.content_type;
    etag = env.json_string m.etag;
    user_metadata = map (λ e. (env.json_string e.0, env.json_string e.1)) m.user_metadata;
  }

  unfoldable pub put_metadata : Bytes → Bytes → ObjectMeta → Fs Unit
  put_metadata bucket key meta = do
    let path = metadata_path env bucket key
    wrap (mkdir_all (dir_of path))
    wrap (write_file path (json (meta_doc (json_meta meta))))

  abbrev pub read_meta : Result Content → Fs ObjectMeta
  read_meta (err e) = raise (missing_as object_not_found e)
  read_meta (ok c) = elim (decode_meta c) [ none ↦ raise other | some m ↦ pure m ]

  unfoldable pub get_metadata : Bytes → Bytes → Fs ObjectMeta
  get_metadata bucket key = do
    found ← attempt (read_file (metadata_path env bucket key))
    read_meta found

  unfoldable pub delete_metadata : Bytes → Bytes → Fs Unit
  delete_metadata bucket key = do
    gone ← attempt (remove (metadata_path env bucket key))
    ignore_missing gone

-- The end of the loop body of ListMetadata: what cannot be read or decoded is left out.
abbrev pub keep_meta : Bytes → Result Content → List ObjectMeta → List ObjectMeta
keep_meta prefix (err e) rest = rest
keep_meta prefix (ok c) rest = elim (decode_meta c) [
  | none ↦ rest
  | some m ↦ if has_prefix m.key prefix then m ∷ rest else rest
]

-- The loop of ListMetadata over the entries of the directory `p`.
unfoldable pub read_entries : FilePath → Bytes → List (Bytes × Node) → Fs (List ObjectMeta)
read_entries p prefix [] = pure []
read_entries p prefix ((name, dir) ∷ es) = read_entries p prefix es
read_entries p prefix ((name, file _) ∷ es) = do
  found ← attempt (read_file (entry_path p name))
  rest ← read_entries p prefix es
  pure (keep_meta prefix found rest)

abbrev pub read_listing : FilePath → Bytes → Result (List (Bytes × Node)) → Fs (List ObjectMeta)
read_listing p prefix (ok es) = read_entries p prefix es
read_listing p prefix (err not_exist) = pure []
read_listing p prefix (err _) = raise other

unfoldable pub list_metadata : Bytes → Bytes → Fs (List ObjectMeta)
unfolding read_entries
list_metadata bucket prefix = do
  listed ← attempt (read_dir (metadata_dir bucket))
  read_listing (metadata_dir bucket) prefix listed

unfoldable pub delete_bucket_metadata : Bytes → Fs Unit
delete_bucket_metadata bucket = do
  gone ← attempt (remove_all (metadata_dir bucket))
  ignore_missing gone
