-- ===== src/Fs/Paths/Shape.antt =====
-- The paths of a bucket with a valid name, component by component.
use mathlib.Core.List.{append-nil}
use home_store.Prelude.{ℕ, ◌≤◌, ◌≡◌, refl, ap, ◌≢◌, true, [], ◌∷◌, ◌++◌, arith, All, length}
use home_store.Prelude.Bytes.{Bytes, codes, lacks, split-lacks}
use home_store.Storage.Names.{is_lower, is_digit, is_valid_bucket_name}
use home_store.Storage.Names.Shape.{IsNameByte}
use home_store.Storage.Names.Rules.{is_valid_bucket_name_iff}
use home_store.Os.Path.{FilePath, push, join_path}
use home_store.Os.Calls.{Env}
use home_store.Fs.Paths.{
  hex_encode, object_file_name, bucket_metadata_path, bucket_path, objects_path, metadata_dir,
  multipart_path, object_path, metadata_path, upload_path,
}

-- One component that filepath.Join takes as it is.
abbrev pub IsPlain : Bytes → Type 0
IsPlain [] = ⊥
IsPlain (c ∷ s) = (c ≢ b'.') × (lacks b'/' (c ∷ s) ≡ true)

pub join_path-plain : (p : FilePath) (s : Bytes) → IsPlain s → join_path p s ≡ p ++ s ∷ []
unfolding join_path
join_path-plain p [] h = elim h [ ]
join_path-plain p (c ∷ s) h = rw (split-lacks b'/' (c ∷ s) h.1) (push-plain p c s h.0)
  where
    push-plain : (p : FilePath) (c : ℕ) (s : Bytes) → c ≢ b'.' → push p (c ∷ s) ≡ p ++ (c ∷ s) ∷ []
    push-plain p c s h = ground arith

name_bytes-lack_slash : (s : Bytes) → All IsNameByte s → lacks b'/' s ≡ true
unfolding is_lower is_digit
name_bytes-lack_slash [] h = refl
name_bytes-lack_slash (c ∷ s) h = ground (arith, h.0, name_bytes-lack_slash s h.1)

pub valid_name-IsPlain : (name : Bytes) → is_valid_bucket_name name ≡ true → IsPlain name
unfolding is_lower is_digit
valid_name-IsPlain [] h = absurd (omega (arith, ((is_valid_bucket_name_iff []).0 h).long_enough))
valid_name-IsPlain (c ∷ s) h =
    let r = (is_valid_bucket_name_iff (c ∷ s)).0 h in
    (λ e. ground (arith, r.first_alnum c s refl), name_bytes-lack_slash (c ∷ s) r.name_bytes)

hex_encode-lacks : (b : Bytes) → lacks b'/' (hex_encode b) ≡ true
unfolding hex_encode
hex_encode-lacks [] = refl
hex_encode-lacks (x ∷ b) = ground (arith, hex_encode-lacks b)

lacks-append : (c : ℕ) (a b : Bytes) → lacks c a ≡ true → lacks c b ≡ true → lacks c (a ++ b) ≡ true
lacks-append c [] b h k = k
lacks-append c (x ∷ a) b h k = ground (arith, lacks-append c a b)

hex_encode-IsPlain :
    (b rest : Bytes) → 1 ≤ length b → lacks b'/' rest ≡ true → IsPlain (hex_encode b ++ rest)
unfolding hex_encode
hex_encode-IsPlain [] rest h k = absurd (omega arith)
hex_encode-IsPlain (x ∷ b) rest h k =
    (λ e. ground arith, lacks-append b'/' (hex_encode (x ∷ b)) rest (hex_encode-lacks (x ∷ b)) k)

module _ (b : Bytes) (valid : is_valid_bucket_name b ≡ true) where
  pub bucket_path-valid : bucket_path b ≡ b ∷ []
  unfolding bucket_path
  bucket_path-valid = join_path-plain [] b (valid_name-IsPlain b valid)

  pub bucket_metadata_path-valid :
      bucket_metadata_path b ≡ codes "bucket_metadata" ∷ b ∷ codes ".bucket.json" ∷ []
  unfolding bucket_metadata_path
  bucket_metadata_path-valid =
      ap (λ p. join_path p (codes ".bucket.json"))
        (join_path-plain (codes "bucket_metadata" ∷ []) b (valid_name-IsPlain b valid))

  pub objects_path-valid : objects_path b ≡ b ∷ codes ".objects" ∷ []
  unfolding objects_path
  objects_path-valid = ap (λ p. join_path p (codes ".objects")) bucket_path-valid

  pub metadata_dir-valid : metadata_dir b ≡ b ∷ codes ".metadata" ∷ []
  unfolding metadata_dir bucket_path
  metadata_dir-valid = ap (λ p. join_path p (codes ".metadata")) bucket_path-valid

  pub multipart_path-valid : multipart_path b ≡ b ∷ codes ".multipart" ∷ []
  unfolding multipart_path
  multipart_path-valid = ap (λ p. join_path p (codes ".multipart")) bucket_path-valid

module _ (env : Env) (sized : (k : Bytes) → length (env.sha256 k) ≡ 32) where
  file_name-IsPlain :
      (k rest : Bytes) → lacks b'/' rest ≡ true → IsPlain (object_file_name env k ++ rest)
  unfolding object_file_name
  file_name-IsPlain k rest h = hex_encode-IsPlain (env.sha256 k) rest (omega (arith, sized k)) h

  pub object_file_name-IsPlain : (k : Bytes) → IsPlain (object_file_name env k)
  object_file_name-IsPlain k = rw append-nil at (file_name-IsPlain k [] refl)

  module _ (b k : Bytes) (valid : is_valid_bucket_name b ≡ true) where
    pub object_path-valid : object_path env b k ≡ b ∷ codes ".objects" ∷ object_file_name env k ∷ []
    unfolding object_path
    object_path-valid =
        rw (objects_path-valid b valid) (join_path-plain _ _ (object_file_name-IsPlain k))

    pub metadata_path-valid :
        metadata_path env b k
        ≡ b ∷ codes ".metadata" ∷ (object_file_name env k ++ codes ".json") ∷ []
    unfolding metadata_path
    metadata_path-valid =
        rw (metadata_dir-valid b valid)
          (join_path-plain _ _ (file_name-IsPlain k (codes ".json") refl))

    pub upload_path-valid :
        upload_path env b k ≡ b ∷ codes ".multipart" ∷ object_file_name env k ∷ []
    unfolding upload_path
    upload_path-valid =
        rw (multipart_path-valid b valid) (join_path-plain _ _ (object_file_name-IsPlain k))
