-- ===== src/Fs/Abstract/Refines.antt =====
-- The filesystem backend behaves as a store by key.
use home_store.Prelude.{
  subst, ◌≡◌, ◌≢◌, refl, sym, ap, ◌∙◌, true, Option, none, some, List, [], ◌∷◌, ◌++◌, arith, All,
  length, Bool-cases, Option-cases, inl, inr,
}
use home_store.Prelude.Bytes.{Bytes, codes, bytes_eq, bytes_eq_iff}
use home_store.Storage.{ObjectMeta}
use home_store.Storage.Names.{is_valid_bucket_name}
use home_store.Os.Disk.{Disk, Node, file, raw, json, meta_doc, lookup, erase}
use home_store.Os.Exec.{ok, calm}
use home_store.Os.Calls.{Env, Reader}
use home_store.Os.Calm.{Gives, Gives-pure, Gives-attempt, Gives-bind, Gives-remove-none}
use home_store.Fs.Paths.{object_path, metadata_path, object_file_name}
use home_store.Fs.Objects.{put_object, get_object, head_object, delete_object}
use home_store.Fs.Touches.Objects.{temp_path}
use home_store.Fs.Touches.Frame.{IsOther, put_object-other, delete_object-other}
use home_store.Fs.Runs.Places.{
  object_path-IsLeaf, temp_path-valid, object-ne-metadata, object-ne-temp, temp-ne-metadata,
  lookup-erase_ne, lookup-erase_self,
}
use home_store.Fs.Runs.Put.{
  HasBucket, require_bucket-Gives, put_disk, put_disk-HasBucket, put_disk-object, put_disk-metadata,
  put_disk-temp, put_object-Gives,
}
use home_store.Fs.Runs.RoundTrip.{
  HasObject, get_object-Gives, head_object-Gives, get_object-missing, head_object-missing,
  delete_object-Gives, without, without-HasBucket,
}
use home_store.Fs.Abstract.{
  Store, set, Op, put, get, head, delete, Reply, done, object, described, key_of, found,
  metadata_of, kept_object, spec_step, spec_run, fs_step, fs_run,
}

abbrev pub object_node : Option (Bytes × ObjectMeta) → Option Node
object_node none = none
object_node (some (c, m)) = some (file (raw c))

abbrev pub meta_node : Option (Bytes × ObjectMeta) → Option Node
meta_node none = none
meta_node (some (c, m)) = some (file (json (meta_doc m)))

-- The two files of a key are those of its value.
pub record HasFiles (env : Env) (b k : Bytes) (v : Option (Bytes × ObjectMeta)) (d : Disk)
    : Type 0 where
  pub data_file : lookup (object_path env b k) d ≡ object_node v
  pub meta_file : lookup (metadata_path env b k) d ≡ meta_node v

-- The bucket is there, no temporary file is in the way, and the keys have the files of the store.
pub record Refines (env : Env) (b : Bytes) (K : Bytes → Type 0) (s : Store) (d : Disk)
    : Type 0 where
  pub in_bucket : HasBucket b d
  pub free : lookup (b ∷ codes ".objects" ∷ (codes ".tmp-" ++ env.suffix) ∷ []) d ≡ none
  pub files : (k : Bytes) → K k → HasFiles env b k (s k) d

-- No two of the keys share files.
abbrev pub AreApart : Env → (Bytes → Type 0) → Type 0
AreApart env K = (j k : Bytes) → K j → K k → object_file_name env j ≡ object_file_name env k → j ≡ k

set_self : (k : Bytes) (v : Option (Bytes × ObjectMeta)) (s : Store) → set k v s k ≡ v
unfolding set
set_self k v s = ground (arith, bytes_eq_iff k k)

set-ne : (k j : Bytes) (v : Option (Bytes × ObjectMeta)) (s : Store) → k ≢ j → set k v s j ≡ s j
unfolding set
set-ne k j v s h = ground (arith, bytes_eq_iff k j)

module _ (env : Env) (sized : (k : Bytes) → length (env.sha256 k) ≡ 32) (b : Bytes)
    (valid : is_valid_bucket_name b ≡ true) (K : Bytes → Type 0) (apart : AreApart env K) where
  delete_object-missing :
      (k : Bytes) (d : Disk)
      → HasBucket b d
      → lookup (object_path env b k) d ≡ none
      → Gives (delete_object env b k) d (ok tt) d
  unfolding delete_object
  delete_object-missing k d h e = Gives-bind _ (require_bucket-Gives b valid d h) (
      Gives-bind _
        (Gives-attempt
          (Gives-remove-none _ d h.layout (object_path-IsLeaf env sized b k valid).up e))
        (Gives-pure tt d))

  other_keys : (k j : Bytes) → K k → K j → k ≢ j → IsOther env b k b j
  other_keys k j hk hj n e = n (apart k j hk hj e.1)

  -- The store after one key was written, from the files of that key and of the others.
  set-Refines :
      (k : Bytes) (v : Option (Bytes × ObjectMeta)) (s : Store) (d d' : Disk)
      → HasFiles env b k v d'
      → ((j : Bytes) → K j → k ≢ j → HasFiles env b j (s j) d')
      → (j : Bytes) → K j
      → HasFiles env b j (set k v s j) d'
  set-Refines k v s d d' self others j hj = elim (Bool-cases (bytes_eq k j)) [
    | inl e ↦
        let q = (bytes_eq_iff k j).0 e in
        subst (λ i. HasFiles env b i (set k v s i) d') q (rw (set_self k v s) self)
    | inr e ↦
        let n : k ≢ j = λ q. cc ((bytes_eq_iff k j).1 q) in rw (set-ne k j v s n) (others j hj n)
  ]

  -- An operation answers as the store does, and leaves a tree that refines what it leaves.
  abbrev Simulates : Op → Store → Disk → Type 0
  Simulates o s d =
      ((fs_step env b o d).0 ≡ (spec_step env o s).0)
      × Refines env b K (spec_step env o s).1 (fs_step env b o d).1

  Simulates-eq :
      (o : Op) (s : Store) (d d' : Disk) (x : Reply)
      → fs_step env b o d ≡ (x, d')
      → x ≡ (spec_step env o s).0
      → Refines env b K (spec_step env o s).1 d'
      → Simulates o s d
  Simulates-eq o s d d' x e h r =
      (ap (λ y. y.0) e ∙ h, subst (Refines env b K (spec_step env o s).1) (sym (ap (λ y. y.1) e)) r)

  module _ (s : Store) (d : Disk) (r : Refines env b K s d) where
    temp_free : (k : Bytes) → lookup (temp_path env b k) d ≡ none
    temp_free k = rw (temp_path-valid env sized b k valid) r.free

    has_object :
        (k c : Bytes) (m : ObjectMeta)
        → K k
        → s k ≡ some (c, m)
        → HasObject env sized b k valid (raw c) m d
    has_object k c m hk e = record {
      in_bucket = r.in_bucket;
      object = (r.files k hk).data_file ∙ ap object_node e;
      metadata = (r.files k hk).meta_file ∙ ap meta_node e;
    }

    no_metadata : (k : Bytes) → K k → s k ≡ none → lookup (metadata_path env b k) d ≡ none
    no_metadata k hk e = (r.files k hk).meta_file ∙ ap meta_node e

    get_object-value :
        (k : Bytes) (v : Option (Bytes × ObjectMeta))
        → K k
        → s k ≡ v
        → Gives (get_object env b k) d (found v) d
    get_object-value k none hk e =
        get_object-missing env sized b k valid d r.in_bucket (no_metadata k hk e)
    get_object-value k (some (c, m)) hk e =
        get_object-Gives env sized b k valid (raw c) m d (has_object k c m hk e)

    head_object-value :
        (k : Bytes) (v : Option (Bytes × ObjectMeta))
        → K k
        → s k ≡ v
        → Gives (head_object env b k) d (metadata_of v) d
    head_object-value k none hk e =
        head_object-missing env sized b k valid d r.in_bucket (no_metadata k hk e)
    head_object-value k (some (c, m)) hk e =
        head_object-Gives env sized b k valid (raw c) m d (has_object k c m hk e)

    get-Simulates : (k : Bytes) → K k → Simulates (get k) s d
    unfolding fs_step spec_step
    get-Simulates k hk =
        Simulates-eq (get k) s d d (object (found (s k)))
          (rw (get_object-value k (s k) hk refl).gives refl) refl r

    head-Simulates : (k : Bytes) → K k → Simulates (head k) s d
    unfolding fs_step spec_step
    head-Simulates k hk =
        Simulates-eq (head k) s d d (described (metadata_of (s k)))
          (rw (head_object-value k (s k) hk refl).gives refl) refl r

    -- Another key keeps its files when two of its lookups stay.
    kept_files :
        (j : Bytes) (d' : Disk)
        → K j
        → (lookup (object_path env b j) d' ≡ lookup (object_path env b j) d)
          × (lookup (metadata_path env b j) d' ≡ lookup (metadata_path env b j) d)
        → HasFiles env b j (s j) d'
    kept_files j d' hj e = record {
      data_file = e.0 ∙ (r.files j hj).data_file;
      meta_file = e.1 ∙ (r.files j hj).meta_file;
    }

    module _ (k : Bytes) (hk : K k) where
      module _ (c : Bytes) (m : ObjectMeta) where
        abbrev whole_body : Reader
        whole_body = record { content = c; intact = true }

        abbrev put_to : Disk
        put_to = put_disk env sized b k valid d r.in_bucket (temp_free k) whole_body m

        put-Gives : Gives (put_object env b k whole_body m) d (ok tt) put_to
        put-Gives =
            put_object-Gives env sized b k valid d r.in_bucket (temp_free k) whole_body m refl

        put-Refines : Refines env b K (set k (some (kept_object env k c m)) s) put_to
        put-Refines = record {
          in_bucket =
              put_disk-HasBucket env sized b k valid d r.in_bucket (temp_free k) whole_body m b
                valid r.in_bucket;
          free =
              ap (λ q. lookup q put_to) (sym (temp_path-valid env sized b k valid))
              ∙ put_disk-temp env sized b k valid d r.in_bucket (temp_free k) whole_body m;
          files =
              set-Refines k (some (kept_object env k c m)) s d put_to
                (record {
                  data_file =
                      put_disk-object env sized b k valid d r.in_bucket (temp_free k) whole_body m;
                  meta_file =
                      put_disk-metadata env sized b k valid d r.in_bucket (temp_free k) whole_body
                        m;
                })
                (λ j hj n. kept_files j put_to hj (
                  let left = ap (λ x. x.1.disk) put-Gives.gives in
                  let same =
                    put_object-other env sized b k b j valid valid (other_keys k j hk hj n)
                      whole_body m (calm d) in
                  (ap (lookup _) (sym left) ∙ same.0, ap (lookup _) (sym left) ∙ same.1)));
        }

        put-Simulates : Simulates (put k c m) s d
        unfolding fs_step spec_step
        put-Simulates =
            Simulates-eq (put k c m) s d put_to (done (ok tt)) (rw put-Gives.gives refl) refl
              put-Refines

      gone-Refines :
          (d' : Disk)
          → Gives (delete_object env b k) d (ok tt) d'
          → HasBucket b d'
          → lookup (b ∷ codes ".objects" ∷ (codes ".tmp-" ++ env.suffix) ∷ []) d' ≡ none
          → HasFiles env b k none d'
          → Refines env b K (set k none s) d'
      gone-Refines d' g h free self = record {
        in_bucket = h;
        free = free;
        files = set-Refines k none s d d' self (λ j hj n. kept_files j d' hj (
            let left = ap (λ x. x.1.disk) g.gives in
            let same =
              delete_object-other env sized b k b j valid valid (other_keys k j hk hj n) (calm d) in
            (ap (lookup _) (sym left) ∙ same.0, ap (lookup _) (sym left) ∙ same.1)));
      }

      -- DeleteObject succeeds, whether there is an object or not.
      pub delete_object-Refines :
          (d' : Disk) × Gives (delete_object env b k) d (ok tt) d'
          × Refines env b K (set k none s) d'
      delete_object-Refines = elim (Option-cases (s k)) [
        | inl e ↦
            let g =
              delete_object-missing k d r.in_bucket ((r.files k hk).data_file ∙ ap object_node e) in
            (
              d,
              g,
              gone-Refines d g r.in_bucket r.free
                  (subst (λ v. HasFiles env b k v d) e (r.files k hk)),
            )
        | inr ((c, m), e) ↦
            let g = delete_object-Gives env sized b k valid (raw c) m d (has_object k c m hk e) in
            (
              without env sized b k valid d,
              g,
              gone-Refines (without env sized b k valid d) g
                  (without-HasBucket env sized b k valid b valid d r.in_bucket)
                  (rw (temp_path-valid env sized b k valid) at (
                    lookup-erase_ne _ _ _ (λ q. temp-ne-metadata env sized b k valid (sym q))
                    ∙ lookup-erase_ne _ _ _ (object-ne-temp env sized b k valid)
                    ∙ temp_free k))
                  (record {
                    data_file =
                        lookup-erase_ne _ _ _ (λ q. object-ne-metadata env sized b k valid (sym q))
                        ∙ lookup-erase_self (object_path env b k) d;
                    meta_file =
                        lookup-erase_self (metadata_path env b k) (erase (object_path env b k) d);
                  }),
            )
      ]

      delete-Simulates : Simulates (delete k) s d
      unfolding fs_step spec_step
      delete-Simulates =
          let (d', g, r') = delete_object-Refines in
          Simulates-eq (delete k) s d d' (done (ok tt)) (rw g.gives refl) refl r'

    step-Simulates : (o : Op) → K (key_of o) → Simulates o s d
    step-Simulates (put k c m) h = put-Simulates k h c m
    step-Simulates (get k) h = get-Simulates k h
    step-Simulates (head k) h = head-Simulates k h
    step-Simulates (delete k) h = delete-Simulates k h

  -- In a bucket with a valid name, on a tree that refines a store by key, any sequence of PutObject
  -- (of bodies that are read whole), GetObject, HeadObject and DeleteObject of keys of which no two
  -- have the same file name gives, where no call fails for an outside reason, the replies that the
  -- store gives, and leaves a tree that refines the store's last state. The values of the library
  -- are the same for all operations, and a SHA-256 sum has 32 bytes.
  pub fs_run-Refines :
      (os : List Op)
      → All (λ o. K (key_of o)) os
      → (s : Store) (d : Disk) → Refines env b K s d
      → ((fs_run env b os d).0 ≡ (spec_run env os s).0)
        × Refines env b K (spec_run env os s).1 (fs_run env b os d).1
  unfolding fs_run spec_run
  fs_run-Refines [] h s d r = (refl, r)
  fs_run-Refines (o ∷ os) h s d r =
      let (e, r') = step-Simulates s d r o h.0 in
      let (es, r'') = fs_run-Refines os h.1 (spec_step env o s).1 (fs_step env b o d).1 r' in
      (rw (e, es) refl, r'')
