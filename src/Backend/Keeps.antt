-- ===== src/Backend/Keeps.antt =====
-- What the operations of a backend keep: those that read, at all arguments, and those that write, at
-- bucket names as the handlers hand them on.
use home_store.Prelude.{ℕ, ◌≡◌, true, List}
use home_store.Prelude.Bytes.{Bytes, lacks}
use home_store.Storage.{ObjectMeta, ListOptions, CompletedPart}
use home_store.Storage.Names.{is_valid_bucket_name}
use home_store.Os.Disk.{Disk}
use home_store.Os.Calls.{Reader}
use home_store.Os.Stable.{Always, Keeps}
use home_store.Backend.{Backend}

pub record KeepsReads (P : Disk → Type 0) (b : Backend) : Type 0 where
  pub list_buckets : Keeps P Always b.list_buckets
  pub bucket_exists : (n : Bytes) → Keeps P Always (b.bucket_exists n)
  pub get_bucket_location : (n : Bytes) → Keeps P Always (b.get_bucket_location n)
  pub get_object : (n k : Bytes) → Keeps P Always (b.get_object n k)
  pub head_object : (n k : Bytes) → Keeps P Always (b.head_object n k)
  pub list_objects : (n : Bytes) (o : ListOptions) → Keeps P Always (b.list_objects n o)
  pub list_multipart_uploads : (n : Bytes) → Keeps P Always (b.list_multipart_uploads n)
  pub list_parts : (n k id : Bytes) → Keeps P Always (b.list_parts n k id)

-- The name is one component of a path, or empty.
abbrev pub IsBare : Bytes → Type 0
IsBare n = lacks b'/' n ≡ true

pub record KeepsWrites (P : Disk → Type 0) (b : Backend) : Type 0 where
  pub create_bucket :
      (n : Bytes) → is_valid_bucket_name n ≡ true → Keeps P Always (b.create_bucket n)
  pub delete_bucket :
      (n : Bytes) → is_valid_bucket_name n ≡ true → Keeps P Always (b.delete_bucket n)
  pub put_object :
      (n k : Bytes) (r : Reader) (m : ObjectMeta) → IsBare n → Keeps P Always (b.put_object n k r m)
  pub delete_object : (n k : Bytes) → IsBare n → Keeps P Always (b.delete_object n k)
  pub copy_object : (n k n' k' : Bytes) → IsBare n' → Keeps P Always (b.copy_object n k n' k')
  pub rename_object :
      (n k n' k' : Bytes) → IsBare n → IsBare n' → Keeps P Always (b.rename_object n k n' k')
  pub create_multipart_upload :
      (n k : Bytes) (m : ObjectMeta) → IsBare n → Keeps P Always (b.create_multipart_upload n k m)
  pub upload_part :
      (n k id : Bytes) (i : ℕ) (r : Reader) → IsBare n → Keeps P Always (b.upload_part n k id i r)
  pub complete_multipart_upload :
      (n k id : Bytes) (ps : List CompletedPart)
      → IsBare n
      → Keeps P Always (b.complete_multipart_upload n k id ps)
  pub abort_multipart_upload :
      (n k id : Bytes) → IsBare n → Keeps P Always (b.abort_multipart_upload n k id)
