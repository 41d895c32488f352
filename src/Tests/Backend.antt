-- ===== src/Tests/Backend.antt =====
-- Runs of the filesystem backend on a small tree.
use home_store.Prelude.{◌≡◌, refl, true, [], ◌∷◌}
use home_store.Prelude.Bytes.{Bytes, codes}
use home_store.Storage.{ListResult, CompletedPart, MultipartPart}
use home_store.Os.Disk.{Disk}
use home_store.Os.Exec.{World, Result, ok, Fs, calm, pure, ◌>>=◌, ◌>>◌}
use home_store.Os.Calls.{
  stat, read_file, read_dir, mkdir_all, write_file, create_temp, copy_to, close, rename, remove,
  remove_all,
}
use home_store.Os.Path.{path_eq, dir_of, is_under}
use home_store.Os.Disk.{lookup, insert, make_dirs, blocked, entries, erase_under}
use home_store.Storage.Names.{is_valid_bucket_name}
use home_store.Fs.Paths.{bucket_metadata_path, metadata_path, object_path, upload_path}
use home_store.Fs.Buckets.{new_backend, create_bucket, require_bucket}
use home_store.Fs.Metadata.{put_metadata, get_metadata}
use home_store.Fs.Objects.{empty_meta, put_object, get_object, head_object, quoted_hex}
use home_store.Fs.Parts.{
  valid_part_number, itoa, part_data_path, part_metadata_path, hex_decode, trim_quotes,
}
use home_store.Prelude.Sort.{sort_by}
use home_store.Fs.Listing.{list_page, page_loop, page_step, after_marker, common_prefix}
use home_store.Fs.Listing.Pages.{next_page}
use home_store.Tests.Data.{metadata, one_group, env, bkt, key, new_key, body}
use home_store.Fs.Multipart.{
  create_multipart_upload, upload_part, complete_multipart_upload, read_upload, read_random,
}

-- All calls of the operating system, opened.
calls : {A : Type 0} → Fs A → Disk → Result A × World
unfolding stat read_file read_dir mkdir_all write_file create_temp copy_to close rename remove
    remove_all lookup insert make_dirs blocked entries erase_under path_eq ◌>>=◌
calls m d = m (calm d)

setup : Fs (Unit {0})
unfolding new_backend create_bucket is_valid_bucket_name put_object require_bucket put_metadata
    metadata_path object_path
setup = do new_backend; create_bucket env bkt; put_object env bkt key body empty_meta

get_back : Result Bytes
unfolding calls setup get_object get_metadata
get_back = (calls (do setup; (r, m) ← get_object env bkt key; pure r.content) []).0

get_back_test : get_back ≡ ok (codes "hello")
unfolding get_back bucket_metadata_path dir_of
get_back_test = refl

-- Two parts, the second one first; their ETags are the hexadecimal bytes, since `md5` is the identity.
uploaded : Fs Bytes
unfolding setup create_multipart_upload upload_part complete_multipart_upload get_object
    get_metadata
uploaded = do
  setup
  upload ← create_multipart_upload env bkt new_key empty_meta
  two ←
      upload_part env bkt new_key upload.upload_id 2
        (record { content = codes "lo"; intact = true })
  one ←
      upload_part env bkt new_key upload.upload_id 1
        (record { content = codes "hel"; intact = true })
  let select : MultipartPart → CompletedPart =
      λ p. record { part_number = p.part_number; etag = p.etag }
  complete_multipart_upload env bkt new_key upload.upload_id (select two ∷ select one ∷ [])
  (r, m) ← get_object env bkt new_key
  pure r.content

upload_back : Result Bytes
unfolding calls uploaded
upload_back = (calls uploaded []).0

upload_back_test : upload_back ≡ ok (codes "hello")
unfolding is_under read_random upload_back bucket_metadata_path dir_of upload_path read_upload
    require_bucket head_object quoted_hex put_metadata metadata_path object_path valid_part_number
    itoa part_data_path part_metadata_path hex_decode trim_quotes
upload_back_test = refl

-- With a delimiter, the page after a common prefix can report the same prefix again.
grouped_pages : ListResult × ListResult
unfolding list_page
grouped_pages =
    let first = list_page one_group metadata in
    (first, list_page (next_page one_group first) metadata)

grouped_pages_test :
    (grouped_pages.0.common_prefixes ≡ codes "a/" ∷ [])
    × (grouped_pages.1.common_prefixes ≡ codes "a/" ∷ [])
unfolding grouped_pages sort_by page_loop page_step after_marker common_prefix
grouped_pages_test = (refl, refl)
