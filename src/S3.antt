-- ===== src/S3.antt =====
-- internal/s3: error codes (errors.go) and the bodies of requests and responses (types.go).
pub mod Types
use home_store.Prelude.Bytes.{Bytes, codes}

abbrev pub no_such_bucket : Bytes
no_such_bucket = codes "NoSuchBucket"

abbrev pub no_such_key : Bytes
no_such_key = codes "NoSuchKey"

abbrev pub bucket_already_exists : Bytes
bucket_already_exists = codes "BucketAlreadyExists"

abbrev pub bucket_not_empty : Bytes
bucket_not_empty = codes "BucketNotEmpty"

abbrev pub invalid_bucket_name : Bytes
invalid_bucket_name = codes "InvalidBucketName"

abbrev pub invalid_request : Bytes
invalid_request = codes "InvalidRequest"

abbrev pub internal_error : Bytes
internal_error = codes "InternalError"

abbrev pub no_such_upload : Bytes
no_such_upload = codes "NoSuchUpload"

abbrev pub invalid_part : Bytes
invalid_part = codes "InvalidPart"
