-- ===== src/Fs/Runs/Replace.antt =====
-- internal/storage/fs/objects.go: the calls by which PutObject replaces a data file.
use home_store.Prelude.{
  ◌≡◌, ◌≢◌, refl, ◌∙◌, Bool, true, false, Option, none, some, [], ◌∷◌, ◌++◌, length, ◌⊎◌, inl, inr,
  if◌then◌else◌,
}
use home_store.Prelude.Bytes.{Bytes}
use home_store.Storage.{other}
use home_store.Os.Path.{FilePath, dir_of}
use home_store.Os.Disk.{Disk, Node, dir, file, Content, raw, lookup, insert, blocked}
use home_store.Os.Exec.{Result, ok, err}
use home_store.Os.Calls.{
  Reader, copy_to, rename, create_temp, move, find, contents, fresh, opened, write_step,
}
use home_store.Os.Layout.{Holds}
use home_store.Fs.Runs.Places.{lookup-insert_ne, lookup-insert_self}
use home_store.Os.Ends.{EndsIn, Ends, Ends-call, place-EndsIn}

-- The data file `p` holds the body, which was read whole.
abbrev pub IsStored : FilePath → Reader → Disk → Type 0
IsStored p body d = (body.intact ≡ true) × Holds p (some (file (raw body.content))) d

-- The entry of the data file `p` is `v`, or the whole body.
abbrev pub IsOldOrNew : FilePath → Option Node → Reader → Disk → Type 0
IsOldOrNew p v body d = Holds p v d ⊎ IsStored p body d

-- The temporary file `t` holds `c`, and the data file is what it was.
abbrev pub IsReady : FilePath → Option Node → FilePath → Bytes → Disk → Type 0
IsReady p v t c d = Holds p v d × (lookup t d ≡ some (file (raw c)))

module _ (p : FilePath) (v : Option Node) (body : Reader) where
  abbrev New : Disk → Type 0
  New = IsOldOrNew p v body

  written_other :
      (t : FilePath) (n : Node) (d : Disk) → t ≢ p → Holds p v d → Holds p v (insert t n d)
  written_other t n d ne h = lookup-insert_ne t p n d ne ∙ h

  pub create_temp-Ends :
      (q : FilePath) (name suffix : Bytes)
      → q ++ (name ++ suffix) ∷ [] ≢ p
      → Ends
          (Holds p v)
          (λ t d. (t ≡ q ++ (name ++ suffix) ∷ []) × IsReady p v t [] d)
          New
          (create_temp q name suffix)
  unfolding create_temp
  create_temp-Ends q name suffix ne =
      Ends-call _ _ (λ d h. by_entry d h (lookup t d)) (λ d h. inl h) (λ keep d h. inl h)
    where
      t : FilePath
      t = q ++ (name ++ suffix) ∷ []

      by_write :
          (d : Disk)
          → Holds p v d
          → (r : Result Unit) (d' : Disk)
          → EndsIn (λ _ d'. d' ≡ insert t (file (raw [])) d) (λ d'. d' ≡ d) r d'
          → EndsIn (λ x d. (x ≡ t) × IsReady p v x [] d) New (opened t r) d'
      by_write d h (ok a) d' e =
          (refl, (rw e (written_other t _ d ne h), rw e (lookup-insert_self t _ d)))
      by_write d h (err x) d' e = inl (rw e h)

      by_entry :
          (d : Disk)
          → Holds p v d
          → (o : Option Node)
          → EndsIn (λ x d. (x ≡ t) × IsReady p v x [] d) New (fresh t d o).0 (fresh t d o).1
      by_entry d h (some n) = inl h
      by_entry d h none =
          by_write d h (write_step t (raw []) d).0 (write_step t (raw []) d).1
            (place-EndsIn t (raw []) d _ _)

  pub copy_to-Ends :
      (t : FilePath)
      → t ≢ p
      → Ends
          (IsReady p v t [])
          (λ n d. (body.intact ≡ true) × IsReady p v t body.content d)
          New
          (copy_to t body)
  unfolding copy_to
  copy_to-Ends t ne =
      Ends-call _ _ (λ d h. rw h.1 (by_end body.intact refl d h)) (λ d h. inl h.0)
        (λ keep d h. inl h.0)
    where
      by_end :
          (i : Bool)
          → body.intact ≡ i
          → (d : Disk) → IsReady p v t [] d
          → EndsIn
              (λ n d. (body.intact ≡ true) × IsReady p v t body.content d)
              New
              (if i then ok (length body.content) else err other)
              (insert t (file (raw body.content)) d)
      by_end true whole d h = (whole, (written_other t _ d ne h.0, lookup-insert_self t _ d))
      by_end false cut d h = inl (written_other t _ d ne h.0)

  pub rename-Ends :
      body.intact ≡ true
      → (t : FilePath) → Ends (IsReady p v t body.content) (λ _. IsStored p body) New (rename t p)
  unfolding rename
  rename-Ends whole t =
      Ends-call _ _
        (λ d h. by_parts d h (contents (find t d)) (only d h) (find (dir_of p) d) (lookup p d))
        (λ d h. inl h.0) (λ keep d h. inl h.0)
    where
      only_by :
          (x : Bool)
          → (contents (if x then err other else ok (file (raw body.content)))
              ≡ ok (raw body.content))
            ⊎ (contents (if x then err other else ok (file (raw body.content))) ≡ err other)
      only_by true = inr refl
      only_by false = inl refl

      only :
          (d : Disk)
          → IsReady p v t body.content d
          → (contents (find t d) ≡ ok (raw body.content)) ⊎ (contents (find t d) ≡ err other)
      only d h = rw h.1 (only_by (blocked t d))

      moved :
          (d : Disk)
          → IsReady p v t body.content d
          → (q : Result Node) (o : Option Node)
          → EndsIn
              (λ _. IsStored p body)
              New
              (move t p d (ok (raw body.content)) q o).0
              (move t p d (ok (raw body.content)) q o).1
      moved d h (ok dir) (some dir) = inl h.0
      moved d h (ok dir) (some (file x)) = (whole, lookup-insert_self p _ _)
      moved d h (ok dir) none = (whole, lookup-insert_self p _ _)
      moved d h (ok (file x)) o = inl h.0
      moved d h (err e) o = inl h.0

      by_parts :
          (d : Disk)
          → IsReady p v t body.content d
          → (r : Result Content) → (r ≡ ok (raw body.content)) ⊎ (r ≡ err other)
          → (q : Result Node) (o : Option Node)
          → EndsIn (λ _. IsStored p body) New (move t p d r q o).0 (move t p d r q o).1
      by_parts d h r (inl e) q o = rw e (moved d h q o)
      by_parts d h r (inr e) q o = rw e (inl h.0)
