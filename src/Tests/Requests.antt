-- ===== src/Tests/Requests.antt =====
-- The theorems on requests at concrete inputs.
use home_store.Prelude.{
  ◌≤◌, ◌+◌, ◌≡◌, ◌≢◌, ◌↔◌, refl, inl, inr, arith, true, false, none, some, List, [], ◌∷◌, map, All,
  length,
}
use home_store.Prelude.Bytes.{codes, bytes_eq, bytes_lt}
use home_store.Prelude.Sort.{sort_by}
use home_store.Storage.{ListResult}
use home_store.Storage.Names.{is_valid_bucket_name}
use home_store.Os.Disk.{Disk, raw}
use home_store.Os.Exec.{ok, calm, ◌>>◌}
use home_store.Os.Calm.{Gives}
use home_store.Fs.Implements.{fs_backend}
use home_store.Fs.Listing.{list_page, info_of, page_loop, page_step, after_marker, common_prefix}
use home_store.Fs.Listing.Flat.{listed}
use home_store.Fs.Objects.{empty_meta}
use home_store.Fs.Runs.Buckets.{created_disk}
use home_store.Fs.Runs.RoundTrip.{without}
use home_store.Fs.Touches.Kept.{IsKept}
use home_store.Fs.Abstract.{Op, fs_run, spec_run}
use home_store.Fs.Abstract.Refines.{Refines, fs_run-Refines}
use home_store.Fs.Parts.{itoa}
use home_store.Http.{Method, get, put, head, delete, HttpRequest, query_get}
use home_store.S3.{bucket_already_exists, bucket_not_empty}
use home_store.S3.Types.{deleted}
use home_store.Config.{Flags, load, validate}
use home_store.Config.Checks.{HasDataDir, validate-load}
use home_store.Api.Responses.{bare, slash, error_response, xml_response, parse_bucket_key}
use home_store.Api.Parse.{parse_bucket_key-join}
use home_store.Api.Objects.{object_header}
use home_store.Api.Lists.{parsed_max_keys, options_from, marker_of, next_token_of}
use home_store.Api.Handler.{route_request}
use home_store.Api.Serves.{IsAnswer}
use home_store.Api.Answers.{safe_request-same}
use home_store.Api.History.{serve, serve-IsKept}
use home_store.Api.Runs.{whole_object}
use home_store.Api.Runs.Objects.{
  no_bucket_at, missing_at, stored, put_after, put-reads, delete-reads, missing_bucket,
}
use home_store.Api.Runs.Buckets.{bad_name, invalid_name-refused, create-then, put-delete_bucket}
use home_store.Api.Runs.Deletes.{reported, unset_all, delete_request-Refines}
use home_store.Api.Pages.{
  with_token, marker_of-next_token_of, request-bound, parsed_max_keys-itoa, follow_tokens,
  follow_tokens_lem,
}
use home_store.Tests.Data.{
  env, sized, bkt, bkt_valid, key, new_key, body, bucket_disk, bkt_there, tmp_free, object_disk,
  object_meta, key_there, metadata, metadata-HasKey, metadata-HasDistinctKeys, empty-HasLayout,
  no_bucket,
}
use home_store.Tests.RequestData.{
  lib, both_keys, request, put_key, IsFor-key, bucket_request, IsForBucket-bkt, delete_both,
  IsForBucket-delete_both, delete_both-query, IsUsed, IsUsed-apart, no_objects, bucket_disk-Refines,
  empty-IsKept, arrivals, metadata-IsByte, one_key, metadata-listed_v2,
}

abbrev key_request : Method → HttpRequest
key_request m = request m (codes "/bucket/a/b")

serve-IsKept_example : IsKept (serve arrivals []).1 × All IsAnswer (serve arrivals []).0
serve-IsKept_example = serve-IsKept arrivals (sized, (sized, (sized, tt))) [] empty-IsKept

abbrev operations : List Op
operations =
    Op.put key (codes "hello") empty_meta
    ∷ Op.get key
    ∷ Op.head new_key
    ∷ Op.delete key
    ∷ Op.get key
    ∷ []

fs_run-Refines_example :
    ((fs_run env bkt operations bucket_disk).0 ≡ (spec_run env operations no_objects).0)
    × Refines env bkt IsUsed
        (spec_run env operations no_objects).1
        (fs_run env bkt operations bucket_disk).1
fs_run-Refines_example =
    fs_run-Refines env sized bkt bkt_valid IsUsed IsUsed-apart operations
      (inl refl, (inl refl, (inr refl, (inl refl, (inl refl, tt))))) no_objects bucket_disk
      bucket_disk-Refines

put-reads_example :
    let after =
      put_after env sized bkt key bkt_valid bucket_disk bkt_there
        (tmp_free key)
        lib
        lib
        put_key
        (IsFor-key put)
        refl in
    let m =
      stored env sized bkt key bkt_valid bucket_disk bkt_there
        (tmp_free key)
        lib
        lib
        put_key
        (IsFor-key put)
        refl in
    Gives
      (route_request lib (fs_backend env) put_key
        >> route_request lib (fs_backend env) (key_request get))
      bucket_disk
      (ok (whole_object lib m (codes "hello")))
      after
    × Gives
        (route_request lib (fs_backend env) put_key
          >> route_request lib (fs_backend env) (key_request head))
        bucket_disk
        (ok (bare 200 (object_header lib m)))
        after
put-reads_example =
    put-reads env sized bkt key bkt_valid bucket_disk bkt_there (tmp_free key) lib lib put_key
      (IsFor-key put) refl (key_request get) (key_request head) (IsFor-key get) (IsFor-key head)

delete-reads_example :
    let gone = without env sized bkt key bkt_valid object_disk in
    Gives
      (route_request lib (fs_backend env) (key_request delete))
      object_disk
      (ok (bare 204 []))
      gone
    × Gives
        (route_request lib (fs_backend env) (key_request get))
        gone
        (ok (missing_at lib (codes "/bucket/a/b")))
        gone
    × Gives
        (route_request lib (fs_backend env) (key_request head))
        gone
        (ok (missing_at lib (codes "/bucket/a/b")))
        gone
delete-reads_example =
    delete-reads env sized bkt key bkt_valid (raw body.content) object_meta object_disk key_there
      lib lib (key_request delete) (key_request get) (key_request head) (IsFor-key delete)
      (IsFor-key get) (IsFor-key head)

invalid_name-refused_example :
    route_request lib (fs_backend env) (request put (codes "/a")) (calm [])
    ≡ (ok (bad_name lib), calm [])
unfolding bytes_eq is_valid_bucket_name
invalid_name-refused_example =
    invalid_name-refused lib (fs_backend env) (codes "a") (λ e. cc e) (request put (codes "/a"))
      refl refl put (record { path = refl; method = refl }) refl (calm [])

safe_request-same_example :
    (route_request lib (fs_backend env) (key_request get) (calm object_disk)).1.disk ≡ object_disk
safe_request-same_example = safe_request-same lib env (key_request get) refl (calm object_disk)

abbrev first_page : ListResult
first_page = list_page (options_from one_key []) metadata

marker_of-next_token_of_example :
    (next_token_of first_page ≢ [])
    × (marker_of (with_token one_key (next_token_of first_page)) ≡ some first_page.next_marker)
unfolding list_page query_get parsed_max_keys page_loop sort_by bytes_lt page_step after_marker
    common_prefix
marker_of-next_token_of_example =
    marker_of-next_token_of one_key first_page refl (λ e. cc e) (ground arith)

parse_bucket_key-join_example :
    parse_bucket_key (codes "/bucket/a/b") ≡ (codes "bucket", codes "a/b")
parse_bucket_key-join_example = parse_bucket_key-join (codes "bucket") (codes "a/b") refl

parsed_max_keys-itoa_example : parsed_max_keys (itoa 12) ≡ 12
parsed_max_keys-itoa_example = parsed_max_keys-itoa 12 (omega arith)

abbrev flags : Flags
flags = record {
  addr = none;
  data_dir = some (codes "data");
  log_level = none;
  auth_disabled = true;
}

validate-load_example :
    (validate (load (λ v. []) flags) ≡ none) ↔ HasDataDir (λ v. []) (some (codes "data"))
validate-load_example = validate-load (λ v. []) flags

missing_bucket_example :
    Gives (route_request lib (fs_backend env) put_key) [] (ok (no_bucket_at lib bkt)) []
    × Gives (route_request lib (fs_backend env) (key_request get)) [] (ok (no_bucket_at lib bkt)) []
    × Gives
        (route_request lib (fs_backend env) (key_request head))
        []
        (ok (no_bucket_at lib bkt))
        []
    × Gives
        (route_request lib (fs_backend env) (key_request delete))
        []
        (ok (no_bucket_at lib bkt))
        []
missing_bucket_example =
    missing_bucket env sized bkt key bkt_valid [] empty-HasLayout no_bucket lib put_key
      (key_request get) (key_request head) (key_request delete) (IsFor-key put) (IsFor-key get)
      (IsFor-key head) (IsFor-key delete)

create-then_example :
    let made = created_disk bkt bkt_valid env [] empty-HasLayout no_bucket in
    Gives
      (route_request lib (fs_backend env) (bucket_request put))
      []
      (ok (bare 200 ((codes "Location", slash bkt) ∷ [])))
      made
    × Gives (route_request lib (fs_backend env) (bucket_request head)) made (ok (bare 200 [])) made
    × Gives
        (route_request lib (fs_backend env) (bucket_request put))
        made
        (ok (error_response lib 409 bucket_already_exists (codes "bucket already exists")))
        made
create-then_example =
    create-then env bkt bkt_valid lib lib [] empty-HasLayout no_bucket (bucket_request put)
      (bucket_request head) (IsForBucket-bkt put) (IsForBucket-bkt head)

put-delete_bucket_example :
    Gives
      (route_request lib (fs_backend env) put_key
        >> route_request lib (fs_backend env) (bucket_request delete))
      bucket_disk
      (ok (
        error_response lib 409 bucket_not_empty
          (codes "the bucket you tried to delete is not empty")))
      (put_after env sized bkt key bkt_valid bucket_disk bkt_there
        (tmp_free key)
        lib
        lib
        put_key
        (IsFor-key put)
        refl)
put-delete_bucket_example =
    put-delete_bucket env bkt bkt_valid lib lib sized key bucket_disk bkt_there (tmp_free key)
      put_key (bucket_request delete) (IsFor-key put) refl (IsForBucket-bkt delete)

delete_request-Refines_example :
    (d' : Disk) × Gives
      (route_request lib (fs_backend env) delete_both)
      bucket_disk
      (ok (xml_response 200 (deleted (record { deleted = reported false both_keys }))))
      d'
    × Refines env bkt IsUsed (unset_all both_keys no_objects) d'
delete_request-Refines_example =
    delete_request-Refines env sized bkt bkt_valid IsUsed IsUsed-apart lib delete_both
      IsForBucket-delete_both delete_both-query false both_keys refl (omega arith)
      (inl refl, (inr refl, tt)) no_objects bucket_disk bucket_disk-Refines

request-bound_example :
    length (list_page (options_from one_key []) metadata).objects
      + length (list_page (options_from one_key []) metadata).common_prefixes
    ≤ 1000
request-bound_example = request-bound one_key [] metadata

follow_tokens_lem_example :
    follow_tokens 4 one_key metadata
    ≡ some (map info_of (listed (options_from one_key []) metadata))
unfolding query_get bytes_eq
follow_tokens_lem_example =
    follow_tokens_lem metadata metadata-HasKey metadata-IsByte metadata-HasDistinctKeys 4 one_key []
      refl refl (omega (arith, metadata-listed_v2))
