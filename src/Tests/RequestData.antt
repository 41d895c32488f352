-- ===== src/Tests/RequestData.antt =====
-- Requests to the small data directory, and library values for their answers.
use home_store.Prelude.{
  ◌≡◌, ◌⊎◌, inl, inr, refl, sym, ap, ◌∙◌, arith, true, false, none, some, List, [], ◌∷◌, ◌++◌, All,
  length,
}
use home_store.Prelude.Bytes.{Bytes, codes, bytes_eq}
use home_store.Os.Disk.{dir, lookup}
use home_store.Os.Exec.{passed, refused}
use home_store.Fs.Paths.{bucket_metadata_path, object_path, metadata_path, object_file_name}
use home_store.Fs.Touches.Kept.{IsKept}
use home_store.Fs.Runs.Places.{
  temp_path-valid, bucket-ne-object, bucket-ne-metadata, lookup-insert_ne,
}
use home_store.Fs.Paths.Shape.{object_path-valid, metadata_path-valid}
use home_store.Prelude.Bytes.{bytes_lt}
use home_store.Prelude.Sort.{sort_by}
use home_store.Fs.Listing.{after_marker}
use home_store.Fs.Listing.Flat.{listed, kept}
use home_store.Http.{query_get}
use home_store.Http.Base64.RoundTrip.{IsByte}
use home_store.Api.Lists.{options_from, parsed_max_keys}
use home_store.Fs.Abstract.{Store}
use home_store.Fs.Abstract.Refines.{Refines, HasFiles, AreApart}
use home_store.Http.{Method, get, put, post, delete, HttpRequest, query_has, header_get}
use home_store.S3.Types.{ObjectIdentifier}
use home_store.Api.Responses.{Library}
use home_store.Api.Runs.{IsFor, object_url}
use home_store.Api.Runs.Buckets.{IsForBucket}
use home_store.Api.History.{Arrival}
use home_store.Tests.Data.{
  metadata, env, sized, bkt, bkt_valid, key, new_key, body, bucket_disk, bkt_there, tmp_free,
  keys-IsOther, empty-HasLayout,
}

abbrev pub both_keys : List ObjectIdentifier
both_keys = record { key = key } ∷ record { key = new_key } ∷ []

-- Any body is read as a request for both keys.
abbrev pub lib : Library
lib = record {
  random = none;
  rfc3339 = λ t. codes "t";
  http_time = λ t. codes "t";
  list_time = λ t. codes "t";
  decode_delete = λ r. some (record { quiet = false; objects = both_keys });
  decode_complete = λ r. none;
}

abbrev pub request : Method → Bytes → HttpRequest
request m path = record { method = m; path = path; query = []; header = []; body = body }

abbrev pub put_key : HttpRequest
put_key = request put (object_url bkt key)

pub IsFor-key : (m : Method) → IsFor bkt key m (request m (object_url bkt key))
unfolding query_has header_get
IsFor-key m = record {
  path = refl;
  method = refl;
  no_upload = refl;
  no_rename = refl;
  no_attributes = refl;
  no_source = refl;
}

abbrev pub bucket_request : Method → HttpRequest
bucket_request m = request m (codes "/" ++ bkt)

pub IsForBucket-bkt : (m : Method) → IsForBucket bkt m (bucket_request m)
IsForBucket-bkt m = record { path = refl; method = refl }

abbrev pub delete_both : HttpRequest
delete_both = record (bucket_request post) { query = (codes "delete", []) ∷ [] }

pub IsForBucket-delete_both : IsForBucket bkt post delete_both
IsForBucket-delete_both = record { path = refl; method = refl }

pub delete_both-query : query_has (codes "delete") delete_both.query ≡ true
unfolding query_has bytes_eq
delete_both-query = refl

-- The keys in use.
abbrev pub IsUsed : Bytes → Type 0
IsUsed k = (k ≡ key) ⊎ (k ≡ new_key)

pub IsUsed-apart : AreApart env IsUsed
IsUsed-apart j k (inl e) (inl f) n = e ∙ sym f
IsUsed-apart j k (inr e) (inr f) n = e ∙ sym f
IsUsed-apart j k (inl e) (inr f) n =
    absurd
      (keys-IsOther (refl, sym (ap (object_file_name env) e) ∙ n ∙ ap (object_file_name env) f))
IsUsed-apart j k (inr e) (inl f) n =
    absurd
      (keys-IsOther (refl, sym (ap (object_file_name env) f) ∙ sym n ∙ ap (object_file_name env) e))

abbrev pub no_objects : Store
no_objects k = none

no_files : (k : Bytes) → HasFiles env bkt k none bucket_disk
unfolding lookup
no_files k = record {
  data_file =
      lookup-insert_ne (bucket_metadata_path bkt) (object_path env bkt k) _ _
        (bucket-ne-object env sized bkt k bkt_valid bkt bkt_valid)
      ∙ rw (object_path-valid env sized bkt k bkt_valid)
          (lookup-insert_ne (bkt ∷ []) _ dir [] (λ e. cc e));
  meta_file =
      lookup-insert_ne (bucket_metadata_path bkt) (metadata_path env bkt k) _ _
        (bucket-ne-metadata env sized bkt k bkt_valid bkt bkt_valid)
      ∙ rw (metadata_path-valid env sized bkt k bkt_valid)
          (lookup-insert_ne (bkt ∷ []) _ dir [] (λ e. cc e));
}

pub bucket_disk-Refines : Refines env bkt IsUsed no_objects bucket_disk
bucket_disk-Refines = record {
  in_bucket = bkt_there;
  free =
      ap (λ p. lookup p bucket_disk) (sym (temp_path-valid env sized bkt key bkt_valid))
      ∙ tmp_free key;
  files = λ k h. no_files k;
}

pub empty-IsKept : IsKept []
unfolding lookup
empty-IsKept = (empty-HasLayout, λ p n e. cc e)

-- A bucket is made, an object is stored while a call fails, and the bucket is deleted.
abbrev pub arrivals : List Arrival
arrivals =
    record { lib = lib; env = env; request = bucket_request put; faults = [] }
    ∷ record { lib = lib; env = env; request = put_key; faults = passed ∷ passed ∷ refused ∷ [] }
    ∷ record { lib = lib; env = env; request = bucket_request delete; faults = [] }
    ∷ []

-- A request of version 2 for pages of one key.
abbrev pub one_key : HttpRequest
one_key = record (bucket_request get) {
  query = (codes "list-type", codes "2") ∷ (codes "max-keys", codes "1") ∷ [];
}

pub metadata-IsByte : All (λ m. All IsByte m.key) metadata
metadata-IsByte = ground arith

pub metadata-listed_v2 : length (listed (options_from one_key []) metadata) ≡ 3
unfolding kept sort_by bytes_lt after_marker query_get parsed_max_keys
metadata-listed_v2 = refl
