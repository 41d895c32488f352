-- ===== src/Fs/Runs/Atomic.antt =====
-- internal/storage/fs/objects.go: PutObject and the data file of its object, whichever calls fail.
use home_store.Prelude.{◌≡◌, ◌≢◌, refl, sym, ◌∙◌, true, Option, [], length, ◌⊎◌, inl, inr}
use home_store.Prelude.Bytes.{Bytes, codes}
use home_store.Storage.{ObjectMeta, Error}
use home_store.Storage.Names.{is_valid_bucket_name}
use home_store.Os.Path.{FilePath, dir_of}
use home_store.Os.Disk.{Disk, Node, lookup}
use home_store.Os.Exec.{World, Result, ok, err, pure, attempt, wrap, deferred, ◌>>=◌, ◌>>◌}
use home_store.Os.Calls.{Env, Reader, copy_to, close, rename, remove}
use home_store.Os.Stable.{Always, Keeps}
use home_store.Os.Layout.{Holds, Holds-file}
use home_store.Os.Stable.{StableDir, Keeps-pure, Keeps-attempt, Keeps-wrap, Keeps-bind}
use home_store.Os.Stable.Rules.{Keeps-mkdir_all, Keeps-write_file, Keeps-close, Keeps-remove}
use home_store.Fs.Paths.{object_path, metadata_path}
use home_store.Fs.Paths.Shape.{object_path-valid, metadata_path-valid}
use home_store.Fs.Metadata.{put_metadata}
use home_store.Fs.Objects.{put_object, stored_meta}
use home_store.Fs.Touches.Buckets.{require_bucket-Keeps}
use home_store.Fs.Touches.Objects.{temp_path}
use home_store.Fs.Touches.Frame.{short_Holds}
use home_store.Fs.Runs.Places.{object-ne-metadata, object-ne-temp}
use home_store.Os.Ends.{
  EndsIn, Ends, Ends-wrap, Ends-deferred, Ends-bind, Ends-Keeps, Ends-after, Ends-given,
  Keeps-either, Keeps-given,
}
use home_store.Fs.Runs.Replace.{
  IsStored, IsOldOrNew, IsReady, create_temp-Ends, copy_to-Ends, rename-Ends,
}

module _ (env : Env) (sized : (k : Bytes) → length (env.sha256 k) ≡ 32) (b k : Bytes)
    (valid : is_valid_bucket_name b ≡ true) where
  abbrev path : FilePath
  path = object_path env b k

  path_dir : (v : Option Node) → StableDir (Holds path v) (dir_of path)
  unfolding dir_of
  path_dir v = rw (object_path-valid env sized b k valid) (short_Holds b _ b _ _ v)

  meta_dir : (v : Option Node) → StableDir (Holds path v) (dir_of (metadata_path env b k))
  unfolding dir_of
  meta_dir v =
      rw (object_path-valid env sized b k valid, metadata_path-valid env sized b k valid)
        (short_Holds b _ b _ _ v)

  put_metadata-Holds :
      (v : Option Node) (m : ObjectMeta) → Keeps (Holds path v) Always (put_metadata env b k m)
  unfolding put_metadata
  put_metadata-Holds v m = Keeps-bind _ _ (Keeps-wrap _ (Keeps-mkdir_all _ (meta_dir v))) (λ _ _.
      Keeps-wrap _ (
        Keeps-write_file _ _
          (Holds-file path _ v (λ e. object-ne-metadata env sized b k valid (sym e)))))

  module _ (v : Option Node) (body : Reader) (meta : ObjectMeta) where
    -- The data file is what it was, or holds the body.
    abbrev IsOldOrPut : Disk → Type 0
    IsOldOrPut = IsOldOrNew path v body

    abbrev IsPut : Disk → Type 0
    IsPut = IsStored path body

    put_metadata-IsPut : (m : ObjectMeta) → Keeps IsPut Always (put_metadata env b k m)
    put_metadata-IsPut m = Keeps-given (put_metadata-Holds _ m)

    clean-Holds :
        (t : FilePath)
        → t ≢ path
        → (u : Option Node)
        → Keeps (Holds path u) Always (do attempt close; attempt (remove t); pure tt)
    clean-Holds t ne u = Keeps-bind _ _ (Keeps-attempt _ Keeps-close) (λ _ _.
        Keeps-bind _ _ (Keeps-attempt _ (Keeps-remove _ (Holds-file path t u ne)))
          (λ _ _. Keeps-pure Always tt tt))

    written-Ends :
        (t : FilePath)
        → t ≢ path
        → Ends
            (IsReady path v t [])
            (λ _. IsPut)
            IsOldOrPut
            (deferred
              (do attempt close; attempt (remove t); pure tt)
              (do
                written ← wrap (copy_to t body)
                wrap close
                wrap (rename t path)
                put_metadata env b k (stored_meta env k body.content written meta)))
    written-Ends t ne =
        Ends-deferred _ _
          (Ends-bind _ _ (Ends-wrap _ (copy_to-Ends path v body t ne)) (λ written.
            Ends-given (λ whole.
              Ends-bind _ _ (Ends-Keeps _ (Keeps-wrap _ Keeps-close) (λ d h. inl h.0)) (λ _.
                Ends-given (λ _.
                  Ends-bind _ _ (Ends-wrap _ (rename-Ends path v body whole t))
                    (λ _. Ends-after (Ends-Keeps _ (put_metadata-IsPut _) (λ d h. inr h))))))))
          (Keeps-given (clean-Holds t ne _))
          (Keeps-either (clean-Holds t ne v) (Keeps-given (clean-Holds t ne _)))

    put_object-Ends : Ends (Holds path v) (λ _. IsPut) IsOldOrPut (put_object env b k body meta)
    unfolding put_object
    put_object-Ends = Ends-bind _ _ (Ends-Keeps _ (require_bucket-Keeps b) (λ d h. inl h)) (λ _.
        Ends-given (λ _.
          Ends-bind _ _
            (Ends-Keeps _ (Keeps-wrap _ (Keeps-mkdir_all _ (path_dir v))) (λ d h. inl h))
            (λ _. Ends-given (λ _.
              Ends-bind _ _
                (Ends-wrap _
                  (create_temp-Ends path v body (dir_of path) (codes ".tmp-") env.suffix tmp_ne))
                (λ t. Ends-given (λ e. written-Ends t (λ f. tmp_ne (sym e ∙ f))))))))
      where
        tmp_ne : temp_path env b k ≢ path
        tmp_ne e = object-ne-temp env sized b k valid (sym e)

  -- How PutObject ends: with the whole body, or with an error and the old data file or the new one.
  abbrev pub IsAtomic : Reader → Disk → Result Unit → Disk → Type 0
  IsAtomic body d r d' =
      ((r ≡ ok tt) × IsStored path body d')
      ⊎ ((e : Error) × (r ≡ err e) × ((lookup path d' ≡ lookup path d) ⊎ IsStored path body d'))

  -- Whichever calls fail and wherever, PutObject either succeeds, and then the body was read whole
  -- and the data file of its object holds all of it, or reports an error, and then the data file is
  -- what it was before, or the body was read whole and the file holds all of it. The bucket name is
  -- valid, and a SHA-256 sum has 32 bytes.
  pub put_object-IsAtomic :
      (body : Reader) (meta : ObjectMeta) (w : World)
      → let (r, w') = put_object env b k body meta w in IsAtomic body w.disk r w'.disk
  put_object-IsAtomic body meta w =
      plain _ (put_object env b k body meta w).1.disk
        ((put_object-Ends (lookup path w.disk) body meta).at w refl)
    where
      plain :
          (r : Result Unit) (d : Disk)
          → EndsIn
              (λ _. IsPut (lookup path w.disk) body meta)
              (IsOldOrPut (lookup path w.disk) body meta)
              r
              d
          → IsAtomic body w.disk r d
      plain (ok a) d e = inl (refl, e)
      plain (err x) d e = inr (x, refl, e)
