-- ===== src/Api/Runs/Copies.antt =====
-- Copies and renames of an object, as requests to the server (internal/api/object.go and rename.go).
use home_store.Prelude.{◌≡◌, ◌≢◌, refl, true, false, none, some, [], ◌∷◌, ◌++◌, length}
use home_store.Prelude.Bytes.{Bytes, codes, bytes_eq, trim_prefix}
use home_store.Storage.{ObjectMeta}
use home_store.Storage.Names.{is_valid_bucket_name}
use home_store.Os.Disk.{Disk, Content, raw, lookup}
use home_store.Os.Exec.{ok}
use home_store.Os.Calls.{Env}
use home_store.Os.Calm.{Gives}
use home_store.Http.{get, put, HttpRequest, query_has, header_get}
use home_store.Http.Escape.{path_unescape}
use home_store.S3.Types.{copied}
use home_store.Fs.Objects.{bytes_of}
use home_store.Fs.Implements.{fs_backend}
use home_store.Fs.Touches.Objects.{temp_path}
use home_store.Fs.Touches.Frame.{IsOther}
use home_store.Fs.Runs.Put.{HasBucket}
use home_store.Fs.Runs.RoundTrip.{HasObject, get_object-Gives}
use home_store.Fs.Runs.Moves.{
  copy_back, copy_disk, copy-HasObject, copy_object-Gives, renamed_disk, rename_object-Gives,
  target_there, source_gone,
}
use home_store.Api.Responses.{Library, bare, xml_response, source_of}
use home_store.Api.Parse.{source_of-join}
use home_store.Api.Objects.{copy_response, rename_response}
use home_store.Api.Handler.{copy_object, rename_object, route, route_request}
use home_store.Api.Runs.{
  IsFor, object_url, whole_object, Gives-reply, valid-lacks, bucket_of-url, key_of-url, route-url,
}
use home_store.Api.Runs.Objects.{missing_at, get-Gives, no_key-at}

-- A PUT of the object `k'` of `b'` as a copy of the source that the header names.
pub record IsCopy (b' k' s : Bytes) (r : HttpRequest) : Type 0 where
  pub path : r.path ≡ object_url b' k'
  pub method : r.method ≡ put
  pub no_upload : query_has (codes "uploadId") r.query ≡ false
  pub no_rename : query_has (codes "renameObject") r.query ≡ false
  pub source : header_get (codes "x-amz-copy-source") r.header ≡ codes "/" ++ s

-- A PUT that asks to rename the source that the header names.
pub record IsRename (b' k' s : Bytes) (r : HttpRequest) : Type 0 where
  pub path : r.path ≡ object_url b' k'
  pub method : r.method ≡ put
  pub no_upload : query_has (codes "uploadId") r.query ≡ false
  pub asks : query_has (codes "renameObject") r.query ≡ true
  pub source : header_get (codes "x-amz-rename-source") r.header ≡ codes "/" ++ s

source_of-object :
    (b k : Bytes) → is_valid_bucket_name b ≡ true → k ≢ [] → source_of (b ++ b'/' ∷ k) ≡ some (b, k)
unfolding is_valid_bucket_name
source_of-object [] k v h = absurd (cc v)
source_of-object (c ∷ b) [] v h = absurd (h refl)
source_of-object (c ∷ b) (d ∷ k) v h = source_of-join c d b k (valid-lacks (c ∷ b) v)

module _ (b' k' s : Bytes) (valid' : is_valid_bucket_name b' ≡ true) (r : HttpRequest) where
  route-IsCopy : IsCopy b' k' s r → route r ≡ copy_object
  unfolding bytes_eq
  route-IsCopy h =
      rw (route-url b' k' valid' r h.path, h.no_upload, h.method, h.no_rename, h.source) refl

  route-IsRename : IsRename b' k' s r → route r ≡ rename_object
  route-IsRename h = rw (route-url b' k' valid' r h.path, h.no_upload, h.method, h.asks) refl

module _ (env : Env) (sized : (k : Bytes) → length (env.sha256 k) ≡ 32) (b k b' k' : Bytes)
    (valid : is_valid_bucket_name b ≡ true) (valid' : is_valid_bucket_name b' ≡ true) (c : Content)
    (m : ObjectMeta) (d : Disk) (source : HasObject env sized b k valid c m d)
    (target : HasBucket b' d) (free : lookup (temp_path env b' k') d ≡ none) (keyed : k ≢ [])
    (lib lib' : Library) where
  abbrev back : ObjectMeta
  back = copy_back env sized b k b' k' valid valid' c m d source target free

  abbrev copy_tree : Disk
  copy_tree = copy_disk env sized b k b' k' valid valid' c m d source target free

  -- Where no call fails for an outside reason and the name of the temporary file is free, a PUT of
  -- an object whose x-amz-copy-source is a slash, the bucket and the key, not empty, of an object
  -- that is there, to a bucket that exists, answers 200 with the ETag and the time of the copy, and
  -- a GET of the copy then answers 200 with the bytes of the source and the headers of the copy's
  -- metadata. The bucket names are valid, a SHA-256 sum has 32 bytes, and the GET asks for the
  -- object in the path style and names no other operation.
  pub copy-reads :
      (r rg : HttpRequest)
      → IsCopy b' k' (b ++ b'/' ∷ k) r
      → IsFor b' k' get rg
      → Gives
          (route_request lib (fs_backend env) r)
          d
          (ok (
            xml_response 200
              (copied (record { etag = back.etag; last_modified = lib.rfc3339 env.now }))))
          copy_tree
        × Gives
            (route_request lib' (fs_backend env) rg)
            copy_tree
            (ok (whole_object lib' back (bytes_of env c)))
            copy_tree
  unfolding route_request home_store.Api.Objects.handle_copy_object trim_prefix
  copy-reads r rg h g = (
    rw (route-IsCopy b' k' _ valid' r h, h.source, source_of-object b k valid keyed)
        (Gives-reply {x = ok back} (copy_response lib b k) (
          rw (bucket_of-url b' k' valid' r h.path, key_of-url b' k' valid' r h.path)
            (copy_object-Gives env sized b k b' k' valid valid' c m d source target free))),
    get-Gives env b' k' valid' lib' rg g (
        get_object-Gives env sized b' k' valid' (raw (bytes_of env c)) back copy_tree
          (copy-HasObject env sized b k b' k' valid valid' c m d source target free)),
  )

  module _ (other : IsOther env b k b' k') where
    abbrev renamed_tree : Disk
    renamed_tree = renamed_disk env sized b k b' k' valid valid' c m d source target free other

    -- Where no call fails for an outside reason and the name of the temporary file is free, a PUT
    -- with `renameObject` in its query whose x-amz-rename-source is a slash and an escaped form of
    -- the bucket and the key, not empty, of an object that is there, to a bucket that exists and a
    -- name with other files, answers 200 with the ETag of the new object; a GET of the new name
    -- then answers 200 with the bytes of the source and the headers of the new metadata, and a GET
    -- of the old name 404 with the code NoSuchKey. The bucket names are valid, a SHA-256 sum has 32
    -- bytes, and the GETs ask for their objects in the path style and name no other operation.
    pub rename-reads :
        (s : Bytes)
        → path_unescape s ≡ some (b ++ b'/' ∷ k)
        → (r rg ro : HttpRequest) → IsRename b' k' s r
        → IsFor b' k' get rg
        → IsFor b k get ro
        → Gives
            (route_request lib (fs_backend env) r)
            d
            (ok (bare 200 ((codes "ETag", back.etag) ∷ [])))
            renamed_tree
          × Gives
              (route_request lib' (fs_backend env) rg)
              renamed_tree
              (ok (whole_object lib' back (bytes_of env c)))
              renamed_tree
          × Gives
              (route_request lib' (fs_backend env) ro)
              renamed_tree
              (ok (missing_at lib' (object_url b k)))
              renamed_tree
    unfolding route_request home_store.Api.Objects.handle_rename_object trim_prefix
    rename-reads s e r rg ro h g o = (
      rw (route-IsRename b' k' s valid' r h, h.source, e, source_of-object b k valid keyed)
          (Gives-reply {x = ok back} (rename_response lib) (
            rw (bucket_of-url b' k' valid' r h.path, key_of-url b' k' valid' r h.path)
              (rename_object-Gives env sized b k b' k' valid valid' c m d source target free
                other))),
      get-Gives env b' k' valid' lib' rg g (
          get_object-Gives env sized b' k' valid' (raw (bytes_of env c)) back renamed_tree
            (target_there env sized b k b' k' valid valid' c m d source target free other)),
      no_key-at env sized b k valid lib' ro o.path (
          get-Gives env b k valid lib' ro o
            (source_gone env sized b k b' k' valid valid' c m d source target free other)),
    )
