-- ===== src/Api/Responses.antt =====
-- internal/api: what the handlers share: the responses, the path and the headers of a request.
use home_store.Prelude.{ℕ, Option, none, some, List, [], ◌∷◌, ◌++◌, map, if◌then◌else◌}
use home_store.Prelude.Bytes.{Bytes, codes, has_prefix, trim_prefix, split_once}
use home_store.Storage.{ObjectMeta}
use home_store.Os.Calls.{Reader}
use home_store.Fs.Paths.{hex_encode}
use home_store.Fs.Objects.{or_default, empty_meta}
use home_store.Http.{HttpRequest, HttpResponse, empty, xml, to_lower, header_get}
use home_store.S3.Types.{Document, error, DeleteObjectsRequest, CompleteMultipartUploadRequest}

-- What the libraries give for one request: the bytes of rand.Read, if it succeeds, the three
-- layouts of times, and the XML decoder on the two kinds of bodies.
pub record Library : Type 0 where
  pub random : Option Bytes
  pub rfc3339 : ℕ → Bytes
  pub http_time : ℕ → Bytes
  pub list_time : ℕ → Bytes
  pub decode_delete : Reader → Option DeleteObjectsRequest
  pub decode_complete : Reader → Option CompleteMultipartUploadRequest

abbrev pub generate_request_id : Option Bytes → Bytes
generate_request_id none = codes "00000000000000000000000000000000"
generate_request_id (some id) = hex_encode id

abbrev pub xml_type : List (Bytes × Bytes)
xml_type = (codes "Content-Type", codes "application/xml") ∷ []

abbrev pub xml_response : ℕ → Document → HttpResponse
xml_response status document = record { status = status; header = xml_type; body = xml document }

-- A response with no body.
abbrev pub bare : ℕ → List (Bytes × Bytes) → HttpResponse
bare status header = record { status = status; header = header; body = empty }

module _ (lib : Library) where
  abbrev pub error_response_with_resource : ℕ → Bytes → Bytes → Bytes → HttpResponse
  error_response_with_resource status code message resource = xml_response status (
      error (record {
        code = code;
        message = message;
        resource = resource;
        request_id = generate_request_id lib.random;
      }))

  abbrev pub error_response : ℕ → Bytes → Bytes → HttpResponse
  error_response status code message = error_response_with_resource status code message []

-- strings.TrimPrefix(path, "/")
abbrev pub trim_slash : Bytes → Bytes
trim_slash path = trim_prefix path (codes "/")

abbrev pub or_no_key : Bytes × Option Bytes → Bytes × Bytes
or_no_key (bucket, none) = (bucket, [])
or_no_key (bucket, some key) = (bucket, key)

unfoldable pub parse_bucket_key : Bytes → Bytes × Bytes
unfolding trim_prefix split_once
parse_bucket_key path = or_no_key (split_once b'/' (trim_slash path))

abbrev pub bucket_of : HttpRequest → Bytes
bucket_of r = (parse_bucket_key r.path).0

abbrev pub key_of : HttpRequest → Bytes
key_of r = (parse_bucket_key r.path).1

-- The bucket of the handlers of a bucket alone.
abbrev pub whole_bucket : HttpRequest → Bytes
whole_bucket r = trim_slash r.path

-- `/bucket`, the resource in an error.
abbrev pub slash : Bytes → Bytes
slash bucket = codes "/" ++ bucket

abbrev pub meta_prefix : Bytes
meta_prefix = codes "x-amz-meta-"

-- Names are met in the order of the list; the source ranges over a map.
unfoldable pub user_metadata : List (Bytes × List Bytes) → List (Bytes × Bytes)
unfolding to_lower trim_prefix
user_metadata [] = []
user_metadata ((name, []) ∷ h) = user_metadata h
user_metadata ((name, v ∷ vs) ∷ h) =
    let rest = user_metadata h in
    if has_prefix (to_lower name) meta_prefix
    then (trim_prefix (to_lower name) meta_prefix, v) ∷ rest
    else rest

abbrev pub write_user_metadata : List (Bytes × Bytes) → List (Bytes × Bytes)
write_user_metadata metadata = map (λ e. (meta_prefix ++ e.0, e.1)) metadata

-- The metadata that PutObject and CreateMultipartUpload are given.
abbrev pub request_meta : HttpRequest → ObjectMeta
request_meta r = record empty_meta {
  content_type = or_default (header_get (codes "Content-Type") r.header);
  user_metadata = user_metadata r.header;
}

-- A copy source without its leading slash, cut at the first slash into two parts, neither empty.
abbrev pub both_named : Bytes × Option Bytes → Option (Bytes × Bytes)
both_named (bucket, none) = none
both_named ([], some key) = none
both_named (c ∷ bucket, some []) = none
both_named (c ∷ bucket, some (d ∷ key)) = some (c ∷ bucket, d ∷ key)

unfoldable pub source_of : Bytes → Option (Bytes × Bytes)
unfolding split_once
source_of source = both_named (split_once b'/' source)
