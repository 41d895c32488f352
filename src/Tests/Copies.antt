-- ===== src/Tests/Copies.antt =====
-- The theorems on copies and renames by requests at concrete inputs.
use home_store.Prelude.{◌≡◌, refl, some, [], ◌∷◌, ◌++◌}
use home_store.Prelude.Bytes.{codes, bytes_eq}
use home_store.Os.Disk.{Disk, raw}
use home_store.Os.Exec.{ok}
use home_store.Os.Calm.{Gives}
use home_store.Http.{get, put, HttpRequest, query_has, header_get}
use home_store.Http.Escape.{path_unescape}
use home_store.S3.Types.{copied}
use home_store.Storage.{ObjectMeta}
use home_store.Fs.Implements.{fs_backend}
use home_store.Fs.Runs.Moves.{copy_back, copy_disk, renamed_disk}
use home_store.Api.Responses.{bare, xml_response}
use home_store.Api.Handler.{route_request}
use home_store.Api.Runs.{IsFor, object_url, whole_object}
use home_store.Api.Runs.Objects.{missing_at}
use home_store.Api.Runs.Copies.{IsCopy, IsRename, copy-reads, rename-reads}
use home_store.Tests.Data.{
  env, sized, bkt, bkt_valid, key, new_key, body, object_disk, object_meta, key_there, bkt_still,
  new_tmp_free, keys-IsOther,
}
use home_store.Tests.RequestData.{lib, request, IsFor-key}

abbrev copy_request : HttpRequest
copy_request = record (request put (object_url bkt new_key)) {
  header = (codes "X-Amz-Copy-Source", codes "/bucket/a/b" ∷ []) ∷ [];
}

-- The slash in the key of the source is escaped.
abbrev rename_request : HttpRequest
rename_request = record (request put (object_url bkt new_key)) {
  query = (codes "renameObject", []) ∷ [];
  header = (codes "X-Amz-Rename-Source", codes "/bucket/a%2Fb" ∷ []) ∷ [];
}

abbrev get_new : HttpRequest
get_new = request get (object_url bkt new_key)

abbrev get_old : HttpRequest
get_old = request get (object_url bkt key)

copy_request-IsCopy : IsCopy bkt new_key (bkt ++ b'/' ∷ key) copy_request
unfolding query_has header_get
copy_request-IsCopy = record {
  path = refl;
  method = refl;
  no_upload = refl;
  no_rename = refl;
  source = refl;
}

rename_request-IsRename : IsRename bkt new_key (codes "bucket/a%2Fb") rename_request
unfolding query_has header_get bytes_eq
rename_request-IsRename = record {
  path = refl;
  method = refl;
  no_upload = refl;
  asks = refl;
  source = refl;
}

unescaped : path_unescape (codes "bucket/a%2Fb") ≡ some (bkt ++ b'/' ∷ key)
unfolding path_unescape
unescaped = refl

get_new-IsFor : IsFor bkt new_key get get_new
unfolding query_has header_get
get_new-IsFor = record {
  path = refl;
  method = refl;
  no_upload = refl;
  no_rename = refl;
  no_attributes = refl;
  no_source = refl;
}

abbrev new_meta : ObjectMeta
new_meta =
    copy_back env sized bkt key bkt new_key bkt_valid bkt_valid (raw body.content) object_meta
      object_disk key_there bkt_still new_tmp_free

abbrev copied_disk : Disk
copied_disk =
    copy_disk env sized bkt key bkt new_key bkt_valid bkt_valid (raw body.content) object_meta
      object_disk key_there bkt_still new_tmp_free

abbrev moved_disk : Disk
moved_disk =
    renamed_disk env sized bkt key bkt new_key bkt_valid bkt_valid (raw body.content) object_meta
      object_disk key_there bkt_still new_tmp_free keys-IsOther

copy-reads_example :
    Gives
      (route_request lib (fs_backend env) copy_request)
      object_disk
      (ok (
        xml_response 200
          (copied (record { etag = new_meta.etag; last_modified = lib.rfc3339 env.now }))))
      copied_disk
    × Gives
        (route_request lib (fs_backend env) get_new)
        copied_disk
        (ok (whole_object lib new_meta body.content))
        copied_disk
copy-reads_example =
    copy-reads env sized bkt key bkt new_key bkt_valid bkt_valid (raw body.content) object_meta
      object_disk key_there bkt_still new_tmp_free (λ e. cc e) lib lib copy_request get_new
      copy_request-IsCopy get_new-IsFor

rename-reads_example :
    Gives
      (route_request lib (fs_backend env) rename_request)
      object_disk
      (ok (bare 200 ((codes "ETag", new_meta.etag) ∷ [])))
      moved_disk
    × Gives
        (route_request lib (fs_backend env) get_new)
        moved_disk
        (ok (whole_object lib new_meta body.content))
        moved_disk
    × Gives
        (route_request lib (fs_backend env) get_old)
        moved_disk
        (ok (missing_at lib (object_url bkt key)))
        moved_disk
rename-reads_example =
    rename-reads env sized bkt key bkt new_key bkt_valid bkt_valid (raw body.content) object_meta
      object_disk key_there bkt_still new_tmp_free (λ e. cc e) lib lib keys-IsOther
      (codes "bucket/a%2Fb") unescaped rename_request get_new get_old rename_request-IsRename
      get_new-IsFor (IsFor-key get)
