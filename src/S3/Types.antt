-- ===== src/S3/Types.antt =====
-- internal/s3/types.go, without the XML names and tags.
use home_store.Prelude.{ℕ, Bool, List}
use home_store.Prelude.Bytes.{Bytes}

pub record Owner : Type 0 where
  pub id : Bytes
  pub display_name : Bytes

pub record Bucket : Type 0 where
  pub name : Bytes
  pub creation_date : Bytes

pub record ListAllMyBucketsResult : Type 0 where
  pub owner : Owner
  pub buckets : List Bucket

pub record CommonPrefix : Type 0 where
  pub prefix : Bytes

pub record Object : Type 0 where
  pub key : Bytes
  pub last_modified : Bytes
  pub etag : Bytes
  pub size : ℕ
  pub storage_class : Bytes

pub record ListObjectsV2Result : Type 0 where
  pub name : Bytes
  pub prefix : Bytes
  pub max_keys : ℕ
  pub is_truncated : Bool
  pub contents : List Object
  pub common_prefixes : List CommonPrefix
  pub continuation_token : Bytes
  pub next_token : Bytes
  pub key_count : ℕ

pub record ListObjectsResult : Type 0 where
  pub name : Bytes
  pub prefix : Bytes
  pub marker : Bytes
  pub next_marker : Bytes
  pub delimiter : Bytes
  pub max_keys : ℕ
  pub is_truncated : Bool
  pub contents : List Object
  pub common_prefixes : List CommonPrefix

pub record ObjectIdentifier : Type 0 where
  pub key : Bytes

pub record DeleteObjectsRequest : Type 0 where
  pub objects : List ObjectIdentifier
  pub quiet : Bool

pub record DeletedObject : Type 0 where
  pub key : Bytes

pub record DeleteObjectsResult : Type 0 where
  pub deleted : List DeletedObject

pub record InitiateMultipartUploadResult : Type 0 where
  pub bucket : Bytes
  pub key : Bytes
  pub upload_id : Bytes

pub record CompletedPart : Type 0 where
  pub part_number : ℕ
  pub etag : Bytes

pub record CompleteMultipartUploadRequest : Type 0 where
  pub parts : List CompletedPart

pub record CompleteMultipartUploadResult : Type 0 where
  pub location : Bytes
  pub bucket : Bytes
  pub key : Bytes
  pub etag : Bytes

pub record MultipartPart : Type 0 where
  pub part_number : ℕ
  pub last_modified : Bytes
  pub etag : Bytes
  pub size : ℕ

pub record ListPartsResult : Type 0 where
  pub bucket : Bytes
  pub key : Bytes
  pub upload_id : Bytes
  pub parts : List MultipartPart

pub record MultipartUpload : Type 0 where
  pub key : Bytes
  pub upload_id : Bytes
  pub initiated : Bytes

pub record ListMultipartUploadsResult : Type 0 where
  pub bucket : Bytes
  pub uploads : List MultipartUpload

pub record CopyPartResult : Type 0 where
  pub etag : Bytes
  pub last_modified : Bytes

pub record GetObjectAttributesResult : Type 0 where
  pub etag : Bytes
  pub object_size : ℕ
  pub storage_class : Bytes

pub record CopyObjectResult : Type 0 where
  pub etag : Bytes
  pub last_modified : Bytes

pub record ErrorResponse : Type 0 where
  pub code : Bytes
  pub message : Bytes
  pub resource : Bytes
  pub request_id : Bytes

-- What the handlers hand to the XML encoder.
pub data Document : Type 0 where
  all_buckets : ListAllMyBucketsResult → Document
  location : Bytes → Document
  objects : ListObjectsResult → Document
  objects_v2 : ListObjectsV2Result → Document
  deleted : DeleteObjectsResult → Document
  initiated : InitiateMultipartUploadResult → Document
  completed : CompleteMultipartUploadResult → Document
  parts : ListPartsResult → Document
  uploads : ListMultipartUploadsResult → Document
  copied_part : CopyPartResult → Document
  attributes : GetObjectAttributesResult → Document
  copied : CopyObjectResult → Document
  error : ErrorResponse → Document
