-- ===== src/Fs/Touches/Frame.antt =====
-- An operation on one object leaves the files of every other object alone, whichever calls fail.
use mathlib.Core.List.{append_cancel_right}
use home_store.Prelude.{
  ◌≡◌, ◌≢◌, refl, sym, ap, ◌∙◌, true, Option, [], ◌∷◌, ◌++◌, arith, length, list_eq,
}
use home_store.Prelude.Bytes.{Bytes, codes}
use home_store.Storage.{ObjectMeta}
use home_store.Storage.Names.{is_valid_bucket_name}
use home_store.Os.Path.{FilePath, path_eq, dir_of, above}
use home_store.Os.Disk.{Node, lookup}
use home_store.Os.Calls.{Env, Reader}
use home_store.Os.Exec.{World}
use home_store.Os.Layout.{Holds, Holds-file, Holds-dir}
use home_store.Os.Stable.{StableDir, keeps_after}
use home_store.Fs.Paths.{object_path, metadata_path, object_file_name}
use home_store.Fs.Paths.Shape.{
  IsPlain, object_file_name-IsPlain, object_path-valid, metadata_path-valid,
}
use home_store.Fs.Objects.{put_object, delete_object}
use home_store.Fs.Touches.Objects.{StableObject, temp_path, put_object-Keeps, delete_object-Keeps}

pub short_Holds :
    (a b x y z : Bytes) (v : Option Node) → StableDir (Holds (x ∷ y ∷ z ∷ []) v) (a ∷ b ∷ [])
unfolding path_eq above list_eq
short_Holds a b x y z v = Holds-dir _ _ v (ground arith)

abbrev pub first : FilePath → Bytes
first (a ∷ b ∷ c ∷ p) = a
first p = []

abbrev pub second : FilePath → Bytes
second (a ∷ b ∷ c ∷ p) = b
second p = []

abbrev pub third : FilePath → Bytes
third (a ∷ b ∷ c ∷ p) = c
third p = []

pub plain_ne_dot : (s t : Bytes) → IsPlain s → s ≢ b'.' ∷ t
plain_ne_dot [] t h e = h
plain_ne_dot (c ∷ s) t h e = ground (arith, h.0)

-- Two objects that share no file.
abbrev pub IsOther : Env → Bytes → Bytes → Bytes → Bytes → Type 0
IsOther env b k b' k' = ¬ ((b ≡ b') × (object_file_name env k ≡ object_file_name env k'))

module _ (env : Env) (sized : (k : Bytes) → length (env.sha256 k) ≡ 32) (b k b' k' : Bytes)
    (valid : is_valid_bucket_name b ≡ true) (valid' : is_valid_bucket_name b' ≡ true)
    (other : IsOther env b k b' k') where
  data_at : object_path env b k ≡ b ∷ codes ".objects" ∷ object_file_name env k ∷ []
  data_at = object_path-valid env sized b k valid

  meta_at :
      metadata_path env b k ≡ b ∷ codes ".metadata" ∷ (object_file_name env k ++ codes ".json") ∷ []
  meta_at = metadata_path-valid env sized b k valid

  temp_at : temp_path env b k ≡ b ∷ codes ".objects" ∷ (codes ".tmp-" ++ env.suffix) ∷ []
  unfolding dir_of
  temp_at = rw data_at refl

  -- The data file of the other object.
  other_data : (v : Option Node) → StableObject (Holds (object_path env b' k') v) env b k
  unfolding dir_of
  other_data v = rw (object_path-valid env sized b' k' valid') (record {
    data_dir = rw data_at (short_Holds b _ b' _ _ v);
    data_file = Holds-file _ _ v (λ e. let f = sym data_at ∙ e in other (ap first f, ap third f));
    temp_file = Holds-file _ _ v (λ e.
        plain_ne_dot _ _ (object_file_name-IsPlain env sized k')
          (sym (ap third (sym temp_at ∙ e))));
    meta_dir = rw meta_at (short_Holds b _ b' _ _ v);
    meta_file = Holds-file _ _ v (λ e. cc (ap second (sym meta_at ∙ e)));
  })

  -- The metadata file of the other object.
  other_meta : (v : Option Node) → StableObject (Holds (metadata_path env b' k') v) env b k
  unfolding dir_of
  other_meta v = rw (metadata_path-valid env sized b' k' valid') (record {
    data_dir = rw data_at (short_Holds b _ b' _ _ v);
    data_file = Holds-file _ _ v (λ e. cc (ap second (sym data_at ∙ e)));
    temp_file = Holds-file _ _ v (λ e. cc (ap second (sym temp_at ∙ e)));
    meta_dir = rw meta_at (short_Holds b _ b' _ _ v);
    meta_file = Holds-file _ _ v (λ e.
        let f = sym meta_at ∙ e in other (ap first f, append_cancel_right _ _ _ (ap third f)));
  })

  -- PutObject, wherever it fails, leaves the data and the metadata of every other object as they
  -- were. The bucket names are valid, and a SHA-256 sum has 32 bytes.
  pub put_object-other :
      (body : Reader) (m : ObjectMeta) (w : World)
      → let w' = (put_object env b k body m w).1 in
        (lookup (object_path env b' k') w'.disk ≡ lookup (object_path env b' k') w.disk)
        × (lookup (metadata_path env b' k') w'.disk ≡ lookup (metadata_path env b' k') w.disk)
  put_object-other body m w = (
    keeps_after _ (put_object-Keeps env b k (other_data _) body m) w refl,
    keeps_after _ (put_object-Keeps env b k (other_meta _) body m) w refl,
  )

  -- DeleteObject, wherever it fails, leaves the data and the metadata of every other object as they
  -- were. The bucket names are valid, and a SHA-256 sum has 32 bytes.
  pub delete_object-other :
      (w : World)
      → let w' = (delete_object env b k w).1 in
        (lookup (object_path env b' k') w'.disk ≡ lookup (object_path env b' k') w.disk)
        × (lookup (metadata_path env b' k') w'.disk ≡ lookup (metadata_path env b' k') w.disk)
  delete_object-other w = (
    keeps_after _ (delete_object-Keeps env b k (other_data _)) w refl,
    keeps_after _ (delete_object-Keeps env b k (other_meta _)) w refl,
  )
