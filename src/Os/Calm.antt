-- ===== src/Os/Calm.antt =====
-- Runs in which no call fails for a reason of the environment: what each call then returns and
-- leaves, where the layout holds.
use home_store.Prelude.{◌≡◌, refl, true, false, Option, none, some, [], ◌∷◌, ◌++◌, all, length}
use home_store.Prelude.Bytes.{Bytes}
use home_store.Storage.{Error, not_exist}
use home_store.Os.Path.{FilePath, dir_of, above}
use home_store.Os.Disk.{
  Disk, Node, dir, file, Content, raw, lookup, insert, erase, erase_under, make_dirs, entries,
}
use home_store.Os.Exec.{
  World, Result, ok, err, Fs, calm, pure, raise, attempt, wrap, wrapped, deferred, ◌>>=◌,
}
use home_store.Os.Calls.{
  Reader, stat, read_file, read_dir, mkdir_all, write_file, create_temp, copy_to, close, rename,
  remove, remove_all, find, place, move, mkdir_step, write_step,
}
use home_store.Os.Layout.{HasLayout, dir_path, dirs_to, not_blocked}

-- The run ends with the result `r` and the tree `d'`.
pub record Gives {A : Type 0} (m : Fs A) (d : Disk) (r : Result A) (d' : Disk) : Type 0 where
  pub gives : m (calm d) ≡ (r, calm d')

module _ {A : Type 0} where
  pub Gives-pure : (a : A) (d : Disk) → Gives (pure a) d (ok a) d
  unfolding pure
  Gives-pure a d = record { gives = refl }

  pub Gives-raise : (e : Error) (d : Disk) → Gives {A = A} (raise e) d (err e) d
  unfolding raise
  Gives-raise e d = record { gives = refl }

  pub Gives-attempt :
      {m : Fs A} {d d' : Disk} {r : Result A} → Gives m d r d' → Gives (attempt m) d (ok r) d'
  unfolding attempt
  Gives-attempt h = record { gives = rw h.gives }

  pub Gives-wrap :
      {m : Fs A} {d d' : Disk} {r : Result A} → Gives m d r d' → Gives (wrap m) d (wrapped r) d'
  unfolding wrap
  Gives-wrap h = record { gives = rw h.gives }

  pub Gives-deferred :
      {c : Fs Unit} {m : Fs A} {d d' d'' : Disk} {r : Result A} {q : Result Unit}
      → Gives m d r d'
      → Gives c d' q d''
      → Gives (deferred c m) d r d''
  unfolding deferred
  Gives-deferred h k = record { gives = rw (h.gives, k.gives) }

module _ {A B : Type 0} where
  pub Gives-bind :
      {m : Fs A} (f : A → Fs B) {d d' d'' : Disk} {a : A} {r : Result B}
      → Gives m d (ok a) d'
      → Gives (f a) d' r d''
      → Gives (m >>= f) d r d''
  unfolding ◌>>=◌
  Gives-bind f h k = record { gives = rw (h.gives, k.gives) }

  pub Gives-bind_err :
      {m : Fs A} (f : A → Fs B) {d d' : Disk} {e : Error}
      → Gives m d (err e) d'
      → Gives (m >>= f) d (err e) d'
  unfolding ◌>>=◌
  Gives-bind_err f h = record { gives = rw h.gives }

module _ (p : FilePath) (d : Disk) (l : HasLayout d) (up : all dir_path (above p) ≡ true) where
  pub find-some : (n : Node) → lookup p d ≡ some n → find p d ≡ ok n
  find-some n e = rw (not_blocked p d l up, e)

  pub find-none : lookup p d ≡ none → find p d ≡ err not_exist
  find-none e = rw (not_blocked p d l up, e)

  pub Gives-stat : (n : Node) → lookup p d ≡ some n → Gives (stat p) d (ok n) d
  unfolding stat
  Gives-stat n e = record { gives = rw (find-some n e) }

  pub Gives-stat-none : lookup p d ≡ none → Gives (stat p) d (err not_exist) d
  unfolding stat
  Gives-stat-none e = record { gives = rw (find-none e) }

  pub Gives-read_file : (c : Content) → lookup p d ≡ some (file c) → Gives (read_file p) d (ok c) d
  unfolding read_file
  Gives-read_file c e = record { gives = rw (find-some (file c) e) }

  pub Gives-read_file-none : lookup p d ≡ none → Gives (read_file p) d (err not_exist) d
  unfolding read_file
  Gives-read_file-none e = record { gives = rw (find-none e) }

  pub Gives-remove :
      (c : Content) → lookup p d ≡ some (file c) → Gives (remove p) d (ok tt) (erase p d)
  unfolding remove
  Gives-remove c e = record { gives = rw (find-some (file c) e) }

  pub Gives-remove-none : lookup p d ≡ none → Gives (remove p) d (err not_exist) d
  unfolding remove
  Gives-remove-none e = record { gives = rw (find-none e) }

  pub Gives-read_dir : lookup p d ≡ some dir → Gives (read_dir p) d (ok (entries p d)) d
  unfolding read_dir
  Gives-read_dir e = record { gives = rw (find-some dir e) }

  pub Gives-read_dir-none : lookup p d ≡ none → Gives (read_dir p) d (err not_exist) d
  unfolding read_dir
  Gives-read_dir-none e = record { gives = rw (find-none e) }

  pub Gives-remove_all : Gives (remove_all p) d (ok tt) (erase_under (λ _. false) p d)
  unfolding remove_all
  Gives-remove_all = record { gives = rw (not_blocked p d l up) }

pub Gives-close : (d : Disk) → Gives close d (ok tt) d
unfolding close
Gives-close d = record { gives = refl }

pub Gives-copy_to :
    (p : FilePath) (r : Reader) (b : Bytes) (d : Disk)
    → r.intact ≡ true
    → lookup p d ≡ some (file (raw b))
    → Gives (copy_to p r) d (ok (length r.content)) (insert p (file (raw (b ++ r.content))) d)
unfolding copy_to
Gives-copy_to p r b d i e = record { gives = rw (i, e) }

-- What a file's place gives: its directory is reached, and it is no directory itself.
module _ (p : FilePath) (d : Disk) (l : HasLayout d) (up : all dir_path (above (dir_of p)) ≡ true)
    (leaf : dir_path p ≡ false) (there : lookup (dir_of p) d ≡ some dir) where
  write_step-calm : (c : Content) → write_step p c d ≡ (ok tt, insert p (file c) d)
  write_step-calm c = rw (find-some (dir_of p) d l up dir there) (no_dir (lookup p d) refl)
    where
      no_dir :
          (o : Option Node) → lookup p d ≡ o → place p c d (ok dir) o ≡ (ok tt, insert p (file c) d)
      no_dir none e = refl
      no_dir (some (file _)) e = refl
      no_dir (some dir) e = absurd (cc (l p dir e, leaf))

  pub Gives-write_file : (c : Content) → Gives (write_file p c) d (ok tt) (insert p (file c) d)
  unfolding write_file
  Gives-write_file c = record { gives = rw (write_step-calm c) }

  pub Gives-rename :
      (t : FilePath) (c : Content)
      → all dir_path (above t) ≡ true
      → lookup t d ≡ some (file c)
      → Gives (rename t p) d (ok tt) (insert p (file c) (erase t d))
  unfolding rename
  Gives-rename t c upt e = record {
    gives =
        rw (find-some t d l upt (file c) e, find-some (dir_of p) d l up dir there)
          (no_dir (lookup p d) refl);
  }
    where
      no_dir :
          (o : Option Node)
          → lookup p d ≡ o
          → (let (r, d') = move t p d (ok c) (ok dir) o in
              ◌≡◌ {A = Result Unit × World}
                (r, calm d')
                (ok tt, calm (insert p (file c) (erase t d))))
      no_dir none e = refl
      no_dir (some (file _)) e = refl
      no_dir (some dir) e = absurd (cc (l p dir e, leaf))

pub Gives-create_temp :
    (p : FilePath) (name suffix : Bytes) (d : Disk)
    → HasLayout d
    → let t = p ++ (name ++ suffix) ∷ [] in
      dir_of t ≡ p
      → all dir_path (above p) ≡ true
      → dir_path t ≡ false
      → lookup p d ≡ some dir
      → lookup t d ≡ none
      → Gives (create_temp p name suffix) d (ok t) (insert t (file (raw [])) d)
unfolding create_temp
Gives-create_temp p name suffix d l e up leaf there free = record {
  gives = rw (free, write_step-calm _ d l (rw e up) leaf (rw e there) (raw []));
}

pub Gives-mkdir_all :
    (p : FilePath) (d : Disk)
    → HasLayout d
    → all dir_path (above p) ≡ true
    → dir_path p ≡ true
    → Gives (mkdir_all p) d (ok tt) (make_dirs (dirs_to p) d)
unfolding mkdir_all
Gives-mkdir_all p d l up leaf = record {
  gives = rw (not_blocked p d l up) (no_file (lookup p d) refl);
}
  where
    no_file :
        (o : Option Node)
        → lookup p d ≡ o
        → (let (r, d') = mkdir_step p d false o in
            ◌≡◌ {A = Result Unit × World} (r, calm d') (ok tt, calm (make_dirs (dirs_to p) d)))
    no_file none e = refl
    no_file (some dir) e = refl
    no_file (some (file c)) e = absurd (cc (l p (file c) e, leaf))
