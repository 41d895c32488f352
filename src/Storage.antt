-- ===== src/Storage.antt =====
-- internal/storage: the types that the backends share (storage.go), and the bucket-name rules.
pub mod Names
use home_store.Prelude.{ℕ, Bool, List, Option}
use home_store.Prelude.Bytes.{Bytes}

-- The sentinel errors of storage.go, the error that os.IsNotExist recognises, and any other
-- error: an I/O failure, or an error that fmt.Errorf wraps.
pub data Error : Type 0 where
  bucket_not_found bucket_exists bucket_not_empty object_not_found : Error
  invalid_bucket_name invalid_key upload_not_found invalid_part : Error
  not_exist other : Error

-- Bucket metadata.
pub record BucketInfo : Type 0 where
  pub name : Bytes
  pub created_at : ℕ
  pub region : Bytes

-- Times are counted from a fixed instant. A Go map is the list of its entries.
pub record ObjectMeta : Type 0 where
  pub key : Bytes
  pub content_type : Bytes
  pub content_length : ℕ
  pub etag : Bytes
  pub last_modified : ℕ
  pub user_metadata : List (Bytes × Bytes)

pub record ListOptions : Type 0 where
  pub prefix : Bytes
  pub delimiter : Bytes
  pub marker : Bytes
  pub max_keys : ℕ

pub record ObjectInfo : Type 0 where
  pub key : Bytes
  pub size : ℕ
  pub last_modified : ℕ
  pub etag : Bytes

pub record ListResult : Type 0 where
  pub objects : List ObjectInfo
  pub common_prefixes : List Bytes
  pub is_truncated : Bool
  pub next_marker : Bytes

pub record MultipartUpload : Type 0 where
  pub upload_id : Bytes
  pub key : Bytes
  pub initiated : ℕ
  pub meta : ObjectMeta

pub record MultipartPart : Type 0 where
  pub part_number : ℕ
  pub etag : Bytes
  pub size : ℕ
  pub last_modified : ℕ

pub record CompletedPart : Type 0 where
  pub part_number : ℕ
  pub etag : Bytes
