-- ===== src/Fs/History.antt =====
-- Requests to the backend one after another, each with its own time, randomness and faults.
pub mod Invariant
use home_store.Prelude.{ℕ, ◌≡◌, true, List, [], ◌∷◌}
use home_store.Prelude.Bytes.{Bytes}
use home_store.Storage.{ObjectMeta, ListOptions, CompletedPart}
use home_store.Storage.Names.{is_valid_bucket_name}
use home_store.Os.Exec.{World, Fault}
use home_store.Os.Disk.{Disk}
use home_store.Os.Calls.{Env, Reader}
use home_store.Fs.Buckets.{
  create_bucket, delete_bucket, list_buckets, get_bucket_location, bucket_exists,
}
use home_store.Fs.Objects.{
  put_object, get_object, delete_object, head_object, copy_object, rename_object,
}
use home_store.Fs.Listing.{list_objects}
use home_store.Fs.Multipart.{
  create_multipart_upload, upload_part, complete_multipart_upload, abort_multipart_upload,
  list_multipart_uploads, list_parts,
}

-- The operations of storage.Backend.
pub data Request : Type 0 where
  create delete exists location uploads : Bytes → Request
  buckets : Request
  put : Bytes → Bytes → Reader → ObjectMeta → Request
  get head remove : Bytes → Bytes → Request
  copy rename : Bytes → Bytes → Bytes → Bytes → Request
  objects : Bytes → ListOptions → Request
  start : Bytes → Bytes → ObjectMeta → Request
  part : Bytes → Bytes → Bytes → ℕ → Reader → Request
  complete : Bytes → Bytes → Bytes → List CompletedPart → Request
  abort parts : Bytes → Bytes → Bytes → Request

-- The world after an operation.
unfoldable pub perform : Env → Request → World → World
perform env (create b) w = (create_bucket env b w).1
perform env (delete b) w = (delete_bucket b w).1
perform env (exists b) w = (bucket_exists b w).1
perform env (location b) w = (get_bucket_location b w).1
perform env (uploads b) w = (list_multipart_uploads b w).1
perform env buckets w = (list_buckets w).1
perform env (put b k body m) w = (put_object env b k body m w).1
perform env (get b k) w = (get_object env b k w).1
perform env (head b k) w = (head_object env b k w).1
perform env (remove b k) w = (delete_object env b k w).1
perform env (copy b k b' k') w = (copy_object env b k b' k' w).1
perform env (rename b k b' k') w = (rename_object env b k b' k' w).1
perform env (objects b o) w = (list_objects b o w).1
perform env (start b k m) w = (create_multipart_upload env b k m w).1
perform env (part b k id n body) w = (upload_part env b k id n body w).1
perform env (complete b k id ps) w = (complete_multipart_upload env b k id ps w).1
perform env (abort b k id) w = (abort_multipart_upload env b k id w).1
perform env (parts b k id) w = (list_parts env b k id w).1

-- The buckets that a request changes are named by the naming rules.
abbrev pub IsNamed : Request → Type 0
IsNamed (create b) = is_valid_bucket_name b ≡ true
IsNamed (delete b) = is_valid_bucket_name b ≡ true
IsNamed (put b k body m) = is_valid_bucket_name b ≡ true
IsNamed (remove b k) = is_valid_bucket_name b ≡ true
IsNamed (copy b k b' k') = is_valid_bucket_name b' ≡ true
IsNamed (rename b k b' k') = (is_valid_bucket_name b ≡ true) × (is_valid_bucket_name b' ≡ true)
IsNamed (start b k m) = is_valid_bucket_name b ≡ true
IsNamed (part b k id n body) = is_valid_bucket_name b ≡ true
IsNamed (complete b k id ps) = is_valid_bucket_name b ≡ true
IsNamed (abort b k id) = is_valid_bucket_name b ≡ true
IsNamed _ = Unit

-- A request that comes in: the library's values at that time, the request, and how its calls end.
pub record Event : Type 0 where
  pub env : Env
  pub request : Request
  pub faults : List Fault

unfoldable pub history : List Event → Disk → Disk
unfolding perform
history [] d = d
history (e ∷ es) d =
    history es (perform e.env e.request (record { disk = d; faults = e.faults })).disk
