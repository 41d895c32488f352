-- ===== src/Fs/Runs/Missing.antt =====
-- internal/storage/fs: every operation on a bucket that does not exist.
use home_store.Prelude.{ℕ, ◌≡◌, true, false, none, List, ◌&&◌, Bool-cases, inl, inr}
use home_store.Prelude.Bytes.{Bytes, bytes_eq}
use home_store.Storage.{ObjectMeta, ListOptions, CompletedPart, bucket_not_found}
use home_store.Storage.Names.{is_valid_bucket_name}
use home_store.Os.Disk.{Disk, lookup}
use home_store.Os.Exec.{ok, err, Fs}
use home_store.Os.Calls.{Env, Reader}
use home_store.Os.Layout.{HasLayout}
use home_store.Os.Calm.{
  Gives, Gives-pure, Gives-raise, Gives-attempt, Gives-bind, Gives-bind_err, Gives-stat-none,
  Gives-read_file-none,
}
use home_store.Fs.Paths.{bucket_metadata_path}
use home_store.Fs.Buckets.{bucket_exists, require_bucket, get_bucket_location}
use home_store.Fs.Objects.{
  put_object, get_object, delete_object, head_object, copy_object, rename_object,
}
use home_store.Fs.Listing.{list_objects}
use home_store.Fs.Parts.{valid_part_number}
use home_store.Fs.Multipart.{
  create_multipart_upload, upload_part, read_upload, complete_multipart_upload,
  abort_multipart_upload, list_multipart_uploads, list_parts,
}
use home_store.Fs.Runs.Places.{bucket_metadata_path-IsLeaf}

-- The operation reports that there is no such bucket, and leaves the tree.
abbrev pub Refuses : {A : Type 0} → Disk → Fs A → Type 0
Refuses d m = Gives m d (err bucket_not_found) d

module _ (b : Bytes) (valid : is_valid_bucket_name b ≡ true) (d : Disk) (l : HasLayout d)
    (missing : lookup (bucket_metadata_path b) d ≡ none) where
  bucket_exists-missing : Gives (bucket_exists b) d (ok false) d
  unfolding bucket_exists
  bucket_exists-missing =
      Gives-bind _
        (Gives-attempt (Gives-stat-none _ d l (bucket_metadata_path-IsLeaf b valid).up missing))
        (Gives-pure false d)

  require_bucket-missing : Refuses d (require_bucket b)
  unfolding require_bucket
  require_bucket-missing = Gives-bind _ bucket_exists-missing (Gives-raise bucket_not_found d)

  get_bucket_location-missing : Refuses d (get_bucket_location b)
  unfolding get_bucket_location
  get_bucket_location-missing =
      Gives-bind _
        (Gives-attempt
          (Gives-read_file-none _ d l (bucket_metadata_path-IsLeaf b valid).up missing))
        (Gives-raise bucket_not_found d)

  get_object-no_bucket : (env : Env) (k : Bytes) → Refuses d (get_object env b k)
  unfolding get_object
  get_object-no_bucket env k = Gives-bind_err _ require_bucket-missing

  rename_object-no_bucket : (env : Env) (k b' k' : Bytes) → Refuses d (rename_object env b k b' k')
  unfolding rename_object head_object copy_object
  rename_object-no_bucket env k b' k' = elim (Bool-cases (bytes_eq b b' && bytes_eq k k')) [
    | inl e ↦ rw e (Gives-bind_err _ require_bucket-missing)
    | inr e ↦ rw e (Gives-bind_err _ (Gives-bind_err _ (get_object-no_bucket env k)))
  ]

  read_upload-missing : (env : Env) (k id : Bytes) → Refuses d (read_upload env b k id)
  unfolding read_upload
  read_upload-missing env k id = Gives-bind_err _ require_bucket-missing

  -- Where no call fails for an outside reason and the bucket, whose name is valid, has no metadata
  -- file, each operation on its objects and its location reports that there is no such bucket, and
  -- leaves the tree as it was: nothing is made for a bucket that does not exist.
  pub object_operations-missing :
      (env : Env) (k b' k' : Bytes) (body : Reader) (m : ObjectMeta) (o : ListOptions)
      → Refuses d (put_object env b k body m)
        × Refuses d (get_object env b k)
        × Refuses d (head_object env b k)
        × Refuses d (delete_object env b k)
        × Refuses d (copy_object env b k b' k')
        × Refuses d (rename_object env b k b' k')
        × Refuses d (list_objects b o)
        × Refuses d (get_bucket_location b)
  unfolding put_object head_object delete_object copy_object list_objects
  object_operations-missing env k b' k' body m o = (
    Gives-bind_err _ require_bucket-missing,
    get_object-no_bucket env k,
    Gives-bind_err _ require_bucket-missing,
    Gives-bind_err _ require_bucket-missing,
    Gives-bind_err _ (get_object-no_bucket env k),
    rename_object-no_bucket env k b' k',
    Gives-bind_err _ require_bucket-missing,
    get_bucket_location-missing,
  )

  -- Where no call fails for an outside reason and the bucket, whose name is valid, has no metadata
  -- file, each operation on its multipart uploads (UploadPart with a part number from 1 to 10000)
  -- reports that there is no such bucket, and leaves the tree as it was.
  pub upload_operations-missing :
      (env : Env) (k id : Bytes) (m : ObjectMeta) (n : ℕ) (body : Reader) (ps : List CompletedPart)
      → valid_part_number n ≡ true
      → Refuses d (create_multipart_upload env b k m)
        × Refuses d (upload_part env b k id n body)
        × Refuses d (list_parts env b k id)
        × Refuses d (complete_multipart_upload env b k id ps)
        × Refuses d (abort_multipart_upload env b k id)
        × Refuses d (list_multipart_uploads b)
  unfolding create_multipart_upload upload_part list_parts complete_multipart_upload
      abort_multipart_upload list_multipart_uploads
  upload_operations-missing env k id m n body ps v = (
    Gives-bind_err _ require_bucket-missing,
    rw v (Gives-bind_err _ (read_upload-missing env k id)),
    Gives-bind_err _ (read_upload-missing env k id),
    Gives-bind_err _ (read_upload-missing env k id),
    Gives-bind_err _ (read_upload-missing env k id),
    Gives-bind_err _ require_bucket-missing,
  )
