-- ===== src/Fs/Touches/Unnamed.antt =====
-- Operations on a bucket whose metadata file is missing have no result.
use home_store.Prelude.{ℕ, ◌≡◌, refl, false, not, ◌&&◌, none, List, arith}
use home_store.Prelude.Bytes.{Bytes, bytes_eq}
use home_store.Storage.{not_exist, ObjectMeta, CompletedPart}
use home_store.Os.Disk.{Disk, Node, lookup}
use home_store.Os.Exec.{Result, ok, err}
use home_store.Os.Calls.{Env, Reader, stat, same, find}
use home_store.Os.Stable.{
  Post, Always, Never, Keeps, Keeps-pure, Keeps-raise, Keeps-attempt, Keeps-if, Keeps-bind,
  Keeps-call,
}
use home_store.Fs.Paths.{bucket_metadata_path}
use home_store.Fs.Parts.{valid_part_number}
use home_store.Fs.Buckets.{existence, bucket_exists, require_bucket}
use home_store.Fs.Objects.{put_object, get_object, delete_object, copy_object, rename_object}
use home_store.Fs.Multipart.{
  create_multipart_upload, read_upload, upload_part, complete_multipart_upload,
  abort_multipart_upload,
}
use home_store.Fs.Touches.Objects.{get_object-Keeps, head_object-Keeps}

find-missing : (p : _) (d : Disk) → lookup p d ≡ none → Post Never (find p d)
find-missing p d e = rw e (ground arith)

module _ {P : Disk → Type 0} (b : Bytes)
    (missing : (d : Disk) → P d → lookup (bucket_metadata_path b) d ≡ none) where
  stat-refused : Keeps P Never (stat (bucket_metadata_path b))
  unfolding stat
  stat-refused =
      Keeps-call Never _ same (λ d h. (h, find-missing (bucket_metadata_path b) d (missing d h)))
        (λ keep d h. h)

  existence-refused : (r : Result Node) → Post Never r → Keeps P (λ e. e ≡ false) (existence r)
  existence-refused (ok n) h = elim h [ ]
  existence-refused (err not_exist) h = Keeps-pure _ false refl
  existence-refused (err _) h = Keeps-raise _ _

  pub require_bucket-refused : Keeps P Never (require_bucket b)
  unfolding require_bucket bucket_exists
  require_bucket-refused =
      Keeps-bind _ _ (Keeps-bind _ _ (Keeps-attempt _ stat-refused) existence-refused)
        (λ e q. Keeps-if e _ _ (λ t. absurd (cc)) (λ _. Keeps-raise Never _))

  module _ (env : Env) where
    pub put_object-refused :
        (k : Bytes) (r : Reader) (m : ObjectMeta) → Keeps P Never (put_object env b k r m)
    unfolding put_object
    put_object-refused k r m = Keeps-bind _ _ require_bucket-refused (λ _ n. elim n [ ])

    pub delete_object-refused : (k : Bytes) → Keeps P Never (delete_object env b k)
    unfolding delete_object
    delete_object-refused k = Keeps-bind _ _ require_bucket-refused (λ _ n. elim n [ ])

    get_object-refused : (k : Bytes) → Keeps P Never (get_object env b k)
    unfolding get_object
    get_object-refused k = Keeps-bind _ _ require_bucket-refused (λ _ n. elim n [ ])

    -- At the destination.
    pub copy_object-refused : (c j k : Bytes) → Keeps P Never (copy_object env c j b k)
    unfolding copy_object
    copy_object-refused c j k =
        Keeps-bind _ _ (get_object-Keeps env c j)
          (λ x _. Keeps-bind _ _ (put_object-refused k _ _) (λ _ n. elim n [ ]))

    copy_from-refused : (c j k : Bytes) → Keeps P Never (copy_object env b k c j)
    unfolding copy_object
    copy_from-refused c j k = Keeps-bind _ _ (get_object-refused k) (λ _ n. elim n [ ])

    -- At the destination, and at the source.
    pub rename_object-refused : (c j k : Bytes) → Keeps P Always (rename_object env c j b k)
    unfolding rename_object
    rename_object-refused c j k =
        Keeps-if (bytes_eq c b && bytes_eq j k) _ _ (λ _. head_object-Keeps env c j)
          (λ _. Keeps-bind _ _ (copy_object-refused c j k) (λ _ n. elim n [ ]))

    pub rename_from-refused : (c j k : Bytes) → Keeps P Always (rename_object env b k c j)
    unfolding rename_object
    rename_from-refused c j k =
        Keeps-if (bytes_eq b c && bytes_eq k j) _ _ (λ _. head_object-Keeps env b k)
          (λ _. Keeps-bind _ _ (copy_from-refused c j k) (λ _ n. elim n [ ]))

    pub create_multipart_upload-refused :
        (k : Bytes) (m : ObjectMeta) → Keeps P Never (create_multipart_upload env b k m)
    unfolding create_multipart_upload
    create_multipart_upload-refused k m = Keeps-bind _ _ require_bucket-refused (λ _ n. elim n [ ])

    read_upload-refused : (k id : Bytes) → Keeps P Never (read_upload env b k id)
    unfolding read_upload
    read_upload-refused k id = Keeps-bind _ _ require_bucket-refused (λ _ n. elim n [ ])

    pub upload_part-refused :
        (k id : Bytes) (i : ℕ) (r : Reader) → Keeps P Never (upload_part env b k id i r)
    unfolding upload_part
    upload_part-refused k id i r =
        Keeps-if (not (valid_part_number i)) _ _ (λ _. Keeps-raise Never _)
          (λ _. Keeps-bind _ _ (read_upload-refused k id) (λ _ n. elim n [ ]))

    pub complete_multipart_upload-refused :
        (k id : Bytes) (ps : List CompletedPart)
        → Keeps P Never (complete_multipart_upload env b k id ps)
    unfolding complete_multipart_upload
    complete_multipart_upload-refused k id ps =
        Keeps-bind _ _ (read_upload-refused k id) (λ _ n. elim n [ ])

    pub abort_multipart_upload-refused :
        (k id : Bytes) → Keeps P Never (abort_multipart_upload env b k id)
    unfolding abort_multipart_upload
    abort_multipart_upload-refused k id =
        Keeps-bind _ _ (read_upload-refused k id) (λ _ n. elim n [ ])
