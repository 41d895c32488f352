-- ===== src/Fs/Objects.antt =====
-- internal/storage/fs/objects.go: the operations on one object.
use home_store.Prelude.{ℕ, ◌&&◌, true, [], ◌∷◌, ◌++◌, if◌then◌else◌}
use home_store.Prelude.Bytes.{Bytes, codes, bytes_eq}
use home_store.Storage.{ObjectMeta, object_not_found, not_exist, other}
use home_store.Os.Path.{dir_of}
use home_store.Os.Disk.{Content, raw, json}
use home_store.Os.Exec.{Result, ok, err, Fs, pure, raise, attempt, wrap, deferred, ◌>>=◌, ◌>>◌}
use home_store.Os.Calls.{
  Env, Reader, read_file, mkdir_all, create_temp, copy_to, close, rename, remove,
}
use home_store.Fs.Paths.{object_path, hex_encode}
use home_store.Fs.Metadata.{missing_as, put_metadata, get_metadata, delete_metadata}
use home_store.Fs.Buckets.{require_bucket}

-- fmt.Sprintf(`"%x"`, sum)
unfoldable pub quoted_hex : Bytes → Bytes
unfolding hex_encode
quoted_hex sum = codes "\"" ++ (hex_encode sum ++ codes "\"")

abbrev pub octet_stream : Bytes
octet_stream = codes "application/octet-stream"

abbrev pub or_default : Bytes → Bytes
or_default [] = octet_stream
or_default (c ∷ s) = c ∷ s

abbrev pub empty_meta : ObjectMeta
empty_meta = record {
  key = [];
  content_type = [];
  content_length = 0;
  etag = [];
  last_modified = 0;
  user_metadata = [];
}

module _ (env : Env) where
  -- The bytes of an opened file.
  abbrev pub bytes_of : Content → Bytes
  bytes_of (raw b) = b
  bytes_of (json d) = env.marshal d

  -- The metadata that PutObject stores with `written` bytes of the body `content`.
  abbrev pub stored_meta : Bytes → Bytes → ℕ → ObjectMeta → ObjectMeta
  stored_meta key content written meta = record meta {
    key = key;
    etag = quoted_hex (env.md5 content);
    content_length = written;
    last_modified = env.now;
    content_type = or_default meta.content_type;
  }

  unfoldable pub put_object : Bytes → Bytes → Reader → ObjectMeta → Fs Unit
  put_object bucket key body meta = do
    require_bucket bucket
    let path = object_path env bucket key
    wrap (mkdir_all (dir_of path))
    tmp ← wrap (create_temp (dir_of path) (codes ".tmp-") env.suffix)
    deferred (do attempt close; attempt (remove tmp); pure tt)
        (do
          written ← wrap (copy_to tmp body)
          wrap close
          wrap (rename tmp path)
          put_metadata env bucket key (stored_meta key body.content written meta))

  abbrev pub open_result : ObjectMeta → Result Content → Fs (Reader × ObjectMeta)
  open_result meta (err e) = raise (missing_as object_not_found e)
  open_result meta (ok c) = pure (record { content = bytes_of c; intact = true }, meta)

  unfoldable pub get_object : Bytes → Bytes → Fs (Reader × ObjectMeta)
  get_object bucket key = do
    require_bucket bucket
    meta ← get_metadata env bucket key
    found ← attempt (read_file (object_path env bucket key))
    open_result meta found

  abbrev pub then_metadata : Bytes → Bytes → Result Unit → Fs Unit
  then_metadata bucket key (ok _) = delete_metadata env bucket key
  then_metadata bucket key (err not_exist) = pure tt
  then_metadata bucket key (err _) = raise other

  unfoldable pub delete_object : Bytes → Bytes → Fs Unit
  delete_object bucket key = do
    require_bucket bucket
    gone ← attempt (remove (object_path env bucket key))
    then_metadata bucket key gone

  unfoldable pub head_object : Bytes → Bytes → Fs ObjectMeta
  head_object bucket key = do require_bucket bucket; get_metadata env bucket key

  unfoldable pub copy_object : Bytes → Bytes → Bytes → Bytes → Fs ObjectMeta
  copy_object src_bucket src_key dst_bucket dst_key = do
    (reader, src_meta) ← get_object src_bucket src_key
    let meta : ObjectMeta = record empty_meta {
      content_type = src_meta.content_type;
      user_metadata = src_meta.user_metadata;
    }
    put_object dst_bucket dst_key reader meta
    get_metadata env dst_bucket dst_key

  unfoldable pub rename_object : Bytes → Bytes → Bytes → Bytes → Fs ObjectMeta
  rename_object src_bucket src_key dst_bucket dst_key =
      if bytes_eq src_bucket dst_bucket && bytes_eq src_key dst_key
      then head_object src_bucket src_key
      else do
        meta ← copy_object src_bucket src_key dst_bucket dst_key
        delete_object src_bucket src_key
        pure meta
