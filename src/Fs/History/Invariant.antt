-- ===== src/Fs/History/Invariant.antt =====
-- The layout of the data directory holds after any requests and failures.
use home_store.Prelude.{◌≡◌, refl, true, List, [], ◌∷◌, All, length}
use home_store.Prelude.Bytes.{Bytes}
use home_store.Storage.Names.{is_valid_bucket_name}
use home_store.Os.Path.{dir_of, above}
use home_store.Os.Disk.{Disk}
use home_store.Os.Exec.{World}
use home_store.Os.Calls.{Env}
use home_store.Os.Layout.{HasLayout, HasLayout-file, HasLayout-dir, HasLayout-tree, dir_path}
use home_store.Os.Stable.{StableDir, StableFile, keeps_after}
use home_store.Fs.Paths.{bucket_path, bucket_metadata_path}
use home_store.Fs.Paths.Shape.{bucket_path-valid, bucket_metadata_path-valid}
use home_store.Fs.History.{
  Request, create, delete, put, remove, copy, rename, start, part, complete, abort, exists,
  location, uploads, buckets, get, head, objects, parts, perform, IsNamed, Event, history,
}
use home_store.Fs.Touches.Buckets.{
  create_bucket-Keeps, delete_bucket-Keeps, bucket_exists-Keeps, get_bucket_location-Keeps,
  list_buckets-Keeps,
}
use home_store.Fs.Touches.Objects.{
  put_object-Keeps, delete_object-Keeps, copy_object-Keeps, rename_object-Keeps, get_object-Keeps,
  head_object-Keeps, list_objects-Keeps,
}
use home_store.Fs.Touches.Multipart.{
  create_multipart_upload-Keeps, upload_part-Keeps, complete_multipart_upload-Keeps,
  abort_multipart_upload-Keeps, list_parts-Keeps, list_multipart_uploads-Keeps,
}
use home_store.Fs.Touches.Layout.{object-HasLayout, upload-HasLayout}

module _ (b : Bytes) (valid : is_valid_bucket_name b ≡ true) where
  pub bucket_dir : StableDir HasLayout (bucket_path b)
  unfolding above dir_path
  bucket_dir = HasLayout-dir _ (rw (bucket_path-valid b valid) refl)

  pub metadata_dir : StableDir HasLayout (dir_of (bucket_metadata_path b))
  unfolding above dir_path dir_of
  metadata_dir = HasLayout-dir _ (rw (bucket_metadata_path-valid b valid) refl)

  pub metadata_file : StableFile HasLayout (bucket_metadata_path b)
  unfolding dir_path
  metadata_file = HasLayout-file _ (rw (bucket_metadata_path-valid b valid) refl)

-- One operation, also one that fails at any point, keeps the layout.
pub perform-HasLayout :
    (env : Env)
    → ((k : Bytes) → length (env.sha256 k) ≡ 32)
    → (r : Request) → IsNamed r
    → (w : World) → HasLayout w.disk
    → HasLayout (perform env r w).disk
unfolding perform
perform-HasLayout env sized (create b) v w h =
    keeps_after HasLayout
      (create_bucket-Keeps env b (bucket_dir b v) (metadata_dir b v) (metadata_file b v)) w h
perform-HasLayout env sized (delete b) v w h =
    keeps_after HasLayout (delete_bucket-Keeps b (HasLayout-tree _) (HasLayout-tree _)) w h
perform-HasLayout env sized (exists b) v w h = keeps_after HasLayout (bucket_exists-Keeps b) w h
perform-HasLayout env sized (location b) v w h =
    keeps_after HasLayout (get_bucket_location-Keeps b) w h
perform-HasLayout env sized (uploads b) v w h =
    keeps_after HasLayout (list_multipart_uploads-Keeps b) w h
perform-HasLayout env sized buckets v w h = keeps_after HasLayout list_buckets-Keeps w h
perform-HasLayout env sized (put b k body m) v w h =
    keeps_after HasLayout (put_object-Keeps env b k (object-HasLayout env sized b k v) body m) w h
perform-HasLayout env sized (get b k) v w h = keeps_after HasLayout (get_object-Keeps env b k) w h
perform-HasLayout env sized (head b k) v w h = keeps_after HasLayout (head_object-Keeps env b k) w h
perform-HasLayout env sized (remove b k) v w h =
    keeps_after HasLayout (delete_object-Keeps env b k (object-HasLayout env sized b k v)) w h
perform-HasLayout env sized (copy b k b' k') v w h =
    keeps_after HasLayout (copy_object-Keeps env b k b' k' (object-HasLayout env sized b' k' v)) w h
perform-HasLayout env sized (rename b k b' k') v w h =
    keeps_after HasLayout
      (rename_object-Keeps env b k b' k' (object-HasLayout env sized b' k' v.1)
        (object-HasLayout env sized b k v.0))
      w h
perform-HasLayout env sized (objects b o) v w h = keeps_after HasLayout (list_objects-Keeps b o) w h
perform-HasLayout env sized (start b k m) v w h =
    keeps_after HasLayout
      (create_multipart_upload-Keeps env b k m (upload-HasLayout env sized b _ v)) w h
perform-HasLayout env sized (part b k id n body) v w h =
    keeps_after HasLayout (upload_part-Keeps env b k id (upload-HasLayout env sized b id v) n body)
      w h
perform-HasLayout env sized (complete b k id ps) v w h =
    keeps_after HasLayout
      (complete_multipart_upload-Keeps env b k id (upload-HasLayout env sized b id v) ps
        (object-HasLayout env sized b k v))
      w h
perform-HasLayout env sized (abort b k id) v w h =
    keeps_after HasLayout
      (abort_multipart_upload-Keeps env b k id (upload-HasLayout env sized b id v)) w h
perform-HasLayout env sized (parts b k id) v w h =
    keeps_after HasLayout (list_parts-Keeps env b k id) w h

-- What is assumed of an event: a SHA-256 sum has 32 bytes, and the bucket names are valid.
pub record IsFair (e : Event) : Type 0 where
  pub sized : (k : Bytes) → length (e.env.sha256 k) ≡ 32
  pub named : IsNamed e.request

-- From a tree in which every entry is a directory or a file as its place wants, after any requests
-- to buckets with valid names, whichever calls of the operating system failed and wherever, every
-- entry of the data directory still is a directory or a file as its place wants. A SHA-256 sum has
-- 32 bytes.
pub history-HasLayout :
    (es : List Event) → All IsFair es → (d : Disk) → HasLayout d → HasLayout (history es d)
unfolding history
history-HasLayout [] f d h = h
history-HasLayout (e ∷ es) f d h =
    history-HasLayout es f.1 _ (perform-HasLayout e.env (f.0).sized e.request (f.0).named _ h)
