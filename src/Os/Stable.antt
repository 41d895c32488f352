-- ===== src/Os/Stable.antt =====
-- What survives the calls, however they end: a predicate on the file tree that is stable at the
-- paths that a program touches holds after the program, and after every failure inside it.
pub mod Rules
use home_store.Prelude.{
  ◌≡◌, refl, Bool, true, false, Option, none, some, List, [], ◌∷◌, ◌++◌, if◌then◌else◌,
}
use home_store.Prelude.Bytes.{Bytes}
use home_store.Storage.{Error}
use home_store.Os.Path.{FilePath, dir_of, above}
use home_store.Os.Disk.{
  Disk, Node, dir, file, Content, raw, json, lookup, insert, erase, erase_under, make_dirs, blocked,
}
use home_store.Os.Exec.{
  Fault, passed, refused, partial, World, Result, ok, err, Fs, pure, raise, attempt, wrap, deferred,
  call, answer, continue, wrapped, ◌>>=◌,
}
use home_store.Os.Calls.{
  Reader, stat, read_file, read_dir, mkdir_all, write_file, create_temp, copy_to, close, rename,
  remove, remove_all, find,
}

abbrev pub Post : {A : Type 0} → (A → Type 0) → Result A → Type 0
Post Q (ok a) = Q a
Post Q (err e) = Unit

abbrev pub Always : {A : Type 0} → A → Type 0
Always a = Unit

-- `m` keeps `P` whatever happens, and its result, if it has one, meets `Q`.
pub record Keeps {A : Type 0} (P : Disk → Type 0) (Q : A → Type 0) (m : Fs A) : Type 0 where
  pub at : (w : World) → P w.disk → P (m w).1.disk × Post Q (m w).0

pub keeps_after :
    {A : Type 0} (P : Disk → Type 0) {m : Fs A}
    → Keeps P Always m
    → (w : World) → P w.disk
    → P (m w).1.disk
keeps_after P k w h = (k.at w h).0

-- A file may be written, replaced or removed at the path.
pub record StableFile (P : Disk → Type 0) (p : FilePath) : Type 0 where
  pub write : (n : Content) (d : Disk) → P d → P (insert p (file n) d)
  pub gone : (d : Disk) → P d → P (erase p d)

-- The directories down to the path may be made.
pub record StableDir (P : Disk → Type 0) (p : FilePath) : Type 0 where
  pub make : (d : Disk) → P d → P (make_dirs (above p ++ p ∷ []) d)

-- The tree at the path may be removed, or a part of it.
pub record StableTree (P : Disk → Type 0) (p : FilePath) : Type 0 where
  pub cut : (keep : FilePath → Bool) (d : Disk) → P d → P (erase_under keep p d)

pub always : {A : Type 0} (r : Result A) → Post Always r
always (ok a) = tt
always (err e) = tt

Post-wrapped : {A : Type 0} (Q : A → Type 0) (r : Result A) → Post Q r → Post Q (wrapped r)
Post-wrapped Q (ok a) q = q
Post-wrapped Q (err e) q = tt

module _ {A : Type 0} {P : Disk → Type 0} where
  pub Keeps-pure : (Q : A → Type 0) (a : A) → Q a → Keeps P Q (pure a)
  unfolding pure
  Keeps-pure Q a q = record { at = λ w h. (h, q) }

  pub Keeps-raise : (Q : A → Type 0) (e : Error) → Keeps P Q (raise e)
  unfolding raise
  Keeps-raise Q e = record { at = λ w h. (h, tt) }

  pub Keeps-weaken : {Q : A → Type 0} (m : Fs A) → Keeps P Q m → Keeps P Always m
  Keeps-weaken m k = record { at = λ w h. ((k.at w h).0, always (m w).0) }

  pub Keeps-attempt : {Q : A → Type 0} (m : Fs A) → Keeps P Q m → Keeps P (Post Q) (attempt m)
  unfolding attempt
  Keeps-attempt m k = record { at = λ w h. k.at w h }

  pub Keeps-wrap : {Q : A → Type 0} (m : Fs A) → Keeps P Q m → Keeps P Q (wrap m)
  unfolding wrap
  Keeps-wrap {Q} m k = record { at = λ w h. ((k.at w h).0, Post-wrapped Q (m w).0 (k.at w h).1) }

  pub Keeps-deferred :
      {Q : A → Type 0} (c : Fs Unit) (m : Fs A)
      → Keeps P Always c
      → Keeps P Q m
      → Keeps P Q (deferred c m)
  unfolding deferred
  Keeps-deferred c m kc km = record { at = λ w h. ((kc.at (m w).1 (km.at w h).0).0, (km.at w h).1) }

  pub Keeps-if :
      {Q : A → Type 0} (b : Bool) (m n : Fs A)
      → (b ≡ true → Keeps P Q m)
      → (b ≡ false → Keeps P Q n)
      → Keeps P Q (if b then m else n)
  Keeps-if true m n km kn = km refl
  Keeps-if false m n km kn = kn refl

  -- A call keeps `P` if both ways in which it changes the tree do.
  pub Keeps-call :
      (Q : A → Type 0) (step : Disk → Result A × Disk) (torn : (FilePath → Bool) → Disk → Disk)
      → ((d : Disk) → P d → P (step d).1 × Post Q (step d).0)
      → ((keep : FilePath → Bool) (d : Disk) → P d → P (torn keep d))
      → Keeps P Q (call step torn)
  Keeps-call Q step torn hs ht = record { at = λ w h. by_fault w.faults w h }
    where
      by_fault :
          (fs : List Fault) (w : World)
          → P w.disk
          → P (answer step torn fs w).1.disk × Post Q (answer step torn fs w).0
      by_fault [] w h = hs w.disk h
      by_fault (passed ∷ fs) w h = hs w.disk h
      by_fault (refused ∷ fs) w h = (h, tt)
      by_fault (partial keep ∷ fs) w h = (ht keep w.disk h, tt)

module _ {A B : Type 0} {P : Disk → Type 0} where
  continue-Keeps :
      {Q : A → Type 0} {R : B → Type 0} (r : Result A) (f : A → Fs B) (w : World)
      → P w.disk
      → Post Q r
      → ((a : A) → Q a → Keeps P R (f a))
      → P (continue r f w).1.disk × Post R (continue r f w).0
  continue-Keeps (ok a) f w h q kf = (kf a q).at w h
  continue-Keeps (err e) f w h q kf = (h, tt)

  pub Keeps-bind :
      {Q : A → Type 0} {R : B → Type 0} (m : Fs A) (f : A → Fs B)
      → Keeps P Q m
      → ((a : A) → Q a → Keeps P R (f a))
      → Keeps P R (m >>= f)
  unfolding ◌>>=◌
  Keeps-bind m f km kf = record {
    at = λ w h. continue-Keeps (m w).0 f (m w).1 (km.at w h).0 (km.at w h).1 kf;
  }

-- There is no result.
abbrev pub Never : {A : Type 0} → A → Type 0
Never a = ⊥

-- Two predicates that are kept are kept together.
pub Keeps-both :
    {A : Type 0} {P R : Disk → Type 0} (m : Fs A)
    → Keeps P Always m
    → Keeps R Always m
    → Keeps (λ d. P d × R d) Always m
Keeps-both m k l = record { at = λ w h. (((k.at w h.0).0, (l.at w h.1).0), always (m w).0) }

module _ {P R : Disk → Type 0} {p : FilePath} where
  pub StableFile-both : StableFile P p → StableFile R p → StableFile (λ d. P d × R d) p
  StableFile-both s t = record {
    write = λ c d h. (s.write c d h.0, t.write c d h.1);
    gone = λ d h. (s.gone d h.0, t.gone d h.1);
  }

  pub StableDir-both : StableDir P p → StableDir R p → StableDir (λ d. P d × R d) p
  StableDir-both s t = record { make = λ d h. (s.make d h.0, t.make d h.1) }

  pub StableTree-both : StableTree P p → StableTree R p → StableTree (λ d. P d × R d) p
  StableTree-both s t = record { cut = λ keep d h. (s.cut keep d h.0, t.cut keep d h.1) }
