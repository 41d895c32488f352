-- ===== src/Os/Stable/Rules.antt =====
-- Each call of the operating system keeps a predicate that is stable at its paths.
use home_store.Prelude.{
  ◌≡◌, refl, Bool, true, false, Option, none, some, [], ◌∷◌, ◌++◌, Bool-cases, inl, inr,
}
use home_store.Prelude.Bytes.{Bytes}
use home_store.Os.Path.{FilePath, dir_of}
use home_store.Os.Disk.{Disk, Node, dir, file, Content, raw, json, lookup, insert, blocked, entries}
use home_store.Os.Exec.{Result, ok, err}
use home_store.Os.Calls.{
  Reader, stat, read_file, read_dir, mkdir_all, write_file, create_temp, copy_to, close, rename,
  remove, remove_all, find, place, fresh, opened, move, drop_node, mkdir_step, remove_step,
  torn_write, same, write_step, contents, appended, is_empty,
}
use home_store.Os.Stable.{
  Post, Always, always, Keeps, StableFile, StableDir, StableTree, Keeps-call,
}

module _ {P : Disk → Type 0} where
  pub Keeps-stat : (p : FilePath) → Keeps P Always (stat p)
  unfolding stat
  Keeps-stat p = Keeps-call Always _ same (λ d h. (h, always _)) (λ keep d h. h)

  pub Keeps-read_file : (p : FilePath) → Keeps P Always (read_file p)
  unfolding read_file
  Keeps-read_file p = Keeps-call Always _ same (λ d h. (h, always _)) (λ keep d h. h)

  pub Keeps-read_dir : (p : FilePath) → Keeps P Always (read_dir p)
  unfolding read_dir
  Keeps-read_dir p = Keeps-call Always _ same (λ d h. (h, always _)) (λ keep d h. h)

  pub Keeps-close : Keeps P Always close
  unfolding close
  Keeps-close = Keeps-call Always _ same (λ d h. (h, tt)) (λ keep d h. h)

  mkdir_keeps :
      (p : FilePath)
      → StableDir P p
      → (d : Disk) (b : Bool) (o : Option Node) → P d
      → P (mkdir_step p d b o).1
  mkdir_keeps p s d true o h = h
  mkdir_keeps p s d false none h = s.make d h
  mkdir_keeps p s d false (some dir) h = s.make d h
  mkdir_keeps p s d false (some (file c)) h = h

  pub Keeps-mkdir_all : (p : FilePath) → StableDir P p → Keeps P Always (mkdir_all p)
  unfolding mkdir_all
  Keeps-mkdir_all p s =
      Keeps-call Always _ same (λ d h. (mkdir_keeps p s d (blocked p d) (lookup p d) h, always _))
        (λ keep d h. h)

  place_keeps :
      (p : FilePath)
      → StableFile P p
      → (c : Content) (d : Disk) (r : Result Node) (o : Option Node) → P d
      → P (place p c d r o).1
  place_keeps p s c d (ok dir) (some dir) h = h
  place_keeps p s c d (ok dir) (some (file _)) h = s.write c d h
  place_keeps p s c d (ok dir) none h = s.write c d h
  place_keeps p s c d (ok (file _)) o h = h
  place_keeps p s c d (err e) o h = h

  write_step_keeps :
      (p : FilePath) → StableFile P p → (c : Content) (d : Disk) → P d → P (write_step p c d).1
  write_step_keeps p s c d h = place_keeps p s c d (find (dir_of p) d) (lookup p d) h

  pub Keeps-write_file :
      (p : FilePath) (c : Content) → StableFile P p → Keeps P Always (write_file p c)
  unfolding write_file
  Keeps-write_file p c s =
      Keeps-call Always (write_step p c) (torn_write p)
        (λ d h. (write_step_keeps p s c d h, always _))
        (λ keep d h. write_step_keeps p s (raw []) d h)

  fresh_keeps :
      (p : FilePath)
      → StableFile P p
      → (d : Disk) (o : Option Node) → P d
      → P (fresh p d o).1 × Post (λ t. t ≡ p) (fresh p d o).0
  fresh_keeps p s d (some n) h = (h, tt)
  fresh_keeps p s d none h =
      (write_step_keeps p s (raw []) d h, is_path (write_step p (raw []) d).0)
    where
      is_path : (r : Result Unit) → Post (λ t. t ≡ p) (opened p r)
      is_path (ok _) = refl
      is_path (err e) = tt

  -- The name of the temporary file is known.
  pub Keeps-create_temp :
      (p : FilePath) (name suffix : Bytes)
      → StableFile P (p ++ (name ++ suffix) ∷ [])
      → Keeps P (λ t. t ≡ p ++ (name ++ suffix) ∷ []) (create_temp p name suffix)
  unfolding create_temp
  Keeps-create_temp p name suffix s =
      let t = p ++ (name ++ suffix) ∷ [] in
      Keeps-call (λ u. u ≡ t) _ same (λ d h. fresh_keeps t s d (lookup t d) h) (λ keep d h. h)

  pub Keeps-copy_to : (p : FilePath) (r : Reader) → StableFile P p → Keeps P Always (copy_to p r)
  unfolding copy_to
  Keeps-copy_to p r s =
      Keeps-call Always _ same (λ d h. (write_appended (lookup p d) d h, always _)) (λ keep d h. h)
    where
      write_appended : (o : Option Node) (d : Disk) → P d → P (insert p (appended r.content o) d)
      write_appended none d h = s.write _ d h
      write_appended (some dir) d h = s.write _ d h
      write_appended (some (file (raw b))) d h = s.write _ d h
      write_appended (some (file (json j))) d h = s.write _ d h

  move_keeps :
      (p q : FilePath)
      → StableFile P p
      → StableFile P q
      → (d : Disk) (c : Result Content) (r : Result Node) (o : Option Node) → P d
      → P (move p q d c r o).1
  move_keeps p q sp sq d (ok c) (ok dir) (some dir) h = h
  move_keeps p q sp sq d (ok c) (ok dir) (some (file _)) h = sq.write c _ (sp.gone d h)
  move_keeps p q sp sq d (ok c) (ok dir) none h = sq.write c _ (sp.gone d h)
  move_keeps p q sp sq d (ok c) (ok (file _)) o h = h
  move_keeps p q sp sq d (ok c) (err e) o h = h
  move_keeps p q sp sq d (err e) r o h = h

  pub Keeps-rename :
      (p q : FilePath) → StableFile P p → StableFile P q → Keeps P Always (rename p q)
  unfolding rename
  Keeps-rename p q sp sq =
      Keeps-call Always _ same
        (λ d h. (
          move_keeps p q sp sq d (contents (find p d)) (find (dir_of q) d) (lookup q d) h,
          always _,
        ))
        (λ keep d h. h)

  drop_keeps :
      (p : FilePath) → StableFile P p → (d : Disk) (r : Result Node) → P d → P (drop_node p d r).1
  drop_keeps p s d (ok (file c)) h = s.gone d h
  drop_keeps p s d (err e) h = h
  drop_keeps p s d (ok dir) h = elim (Bool-cases (is_empty (entries p d))) [
    | inl e ↦ rw e (s.gone d h)
    | inr e ↦ rw e h
  ]

  pub Keeps-remove : (p : FilePath) → StableFile P p → Keeps P Always (remove p)
  unfolding remove
  Keeps-remove p s =
      Keeps-call Always _ same (λ d h. (drop_keeps p s d (find p d) h, always _)) (λ keep d h. h)

  remove_keeps :
      (p : FilePath) → StableTree P p → (d : Disk) (b : Bool) → P d → P (remove_step p d b).1
  remove_keeps p s d true h = h
  remove_keeps p s d false h = s.cut _ d h

  pub Keeps-remove_all : (p : FilePath) → StableTree P p → Keeps P Always (remove_all p)
  unfolding remove_all
  Keeps-remove_all p s =
      Keeps-call Always _ _ (λ d h. (remove_keeps p s d (blocked p d) h, always _)) s.cut
