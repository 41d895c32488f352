-- ===== src/Os/Ends.antt =====
-- Where programs end, by what held before: after success, and after any failure inside.
use home_store.Prelude.{◌≡◌, refl, Bool, Option, none, some, List, [], ◌∷◌, ◌⊎◌, inl, inr}
use home_store.Os.Path.{FilePath}
use home_store.Os.Disk.{Disk, Node, dir, file, Content, insert}
use home_store.Os.Exec.{
  Fault, passed, refused, partial, World, Result, ok, err, Fs, wrap, wrapped, deferred, call,
  answer, continue, ◌>>=◌,
}
use home_store.Os.Calls.{place}
use home_store.Os.Stable.{Post, Always, Keeps}

-- Where a result leaves the tree: `Q` after success, `E` after an error.
abbrev pub EndsIn : {A : Type 0} → (A → Disk → Type 0) → (Disk → Type 0) → Result A → Disk → Type 0
EndsIn Q E (ok a) d = Q a d
EndsIn Q E (err e) d = E d

-- From `P`, a run of `m` that succeeds ends in `Q`, and one that fails in `E`.
pub record Ends {A : Type 0} (P : Disk → Type 0) (Q : A → Disk → Type 0) (E : Disk → Type 0)
    (m : Fs A) : Type 0 where
  pub at : (w : World) → P w.disk → EndsIn Q E (m w).0 (m w).1.disk

module _ {A : Type 0} {P E : Disk → Type 0} {Q : A → Disk → Type 0} where
  pub Ends-wrap : (m : Fs A) → Ends P Q E m → Ends P Q E (wrap m)
  unfolding wrap
  Ends-wrap m h = record { at = λ w p. both (m w).0 (m w).1.disk (h.at w p) }
    where
      both : (r : Result A) (d : Disk) → EndsIn Q E r d → EndsIn Q E (wrapped r) d
      both (ok a) d e = e
      both (err x) d e = e

  pub Ends-call :
      (step : Disk → Result A × Disk) (torn : (FilePath → Bool) → Disk → Disk)
      → ((d : Disk) → P d → EndsIn Q E (step d).0 (step d).1)
      → ((d : Disk) → P d → E d)
      → ((keep : FilePath → Bool) (d : Disk) → P d → E (torn keep d))
      → Ends P Q E (call step torn)
  Ends-call step torn hs hn ht = record { at = λ w h. by_fault w.faults w h }
    where
      by_fault :
          (fs : List Fault) (w : World)
          → P w.disk
          → EndsIn Q E (answer step torn fs w).0 (answer step torn fs w).1.disk
      by_fault [] w h = hs w.disk h
      by_fault (passed ∷ fs) w h = hs w.disk h
      by_fault (refused ∷ fs) w h = hn w.disk h
      by_fault (partial keep ∷ fs) w h = ht keep w.disk h

-- A clean-up that keeps both ends of a program.
pub Ends-deferred :
    {A : Type 0} {P Q E : Disk → Type 0} (c : Fs Unit) (m : Fs A)
    → Ends P (λ _. Q) E m
    → Keeps Q Always c
    → Keeps E Always c
    → Ends P (λ _. Q) E (deferred c m)
unfolding deferred
Ends-deferred {A} {P} {Q} {E} c m h k l = record { at = λ w p. after (m w).0 (m w).1 (h.at w p) }
  where
    after :
        (r : Result A) (w : World) → EndsIn (λ _. Q) E r w.disk → EndsIn (λ _. Q) E r (c w).1.disk
    after (ok a) w e = (k.at w e).0
    after (err x) w e = (l.at w e).0

pub Ends-bind :
    {A B : Type 0} {P E : Disk → Type 0} {Q : A → Disk → Type 0} {S : B → Disk → Type 0} (m : Fs A)
    (f : A → Fs B)
    → Ends P Q E m
    → ((a : A) → Ends (Q a) S E (f a))
    → Ends P S E (m >>= f)
unfolding ◌>>=◌
Ends-bind {A} {B} {P} {E} {Q} {S} m f h k = record { at = λ w p. next (m w).0 (m w).1 (h.at w p) }
  where
    next :
        (r : Result A) (w : World)
        → EndsIn Q E r w.disk
        → EndsIn S E (continue r f w).0 (continue r f w).1.disk
    next (ok a) w e = (k a).at w e
    next (err x) w e = e

-- A program that keeps `P` ends in `P`.
pub Ends-Keeps :
    {A : Type 0} {P E : Disk → Type 0} {Q : A → Type 0} (m : Fs A)
    → Keeps P Q m
    → ((d : Disk) → P d → E d)
    → Ends P (λ a d. Q a × P d) E m
Ends-Keeps {A} {P} {E} {Q} m k weak = record { at = λ w p. both (m w).0 (m w).1.disk (k.at w p) }
  where
    both : (r : Result A) (d : Disk) → P d × Post Q r → EndsIn (λ a d. Q a × P d) E r d
    both (ok a) d h = (h.1, h.0)
    both (err x) d h = weak d h.0

-- Less is said of the end.
pub Ends-after :
    {A X : Type 0} {P R E : Disk → Type 0} {m : Fs A}
    → Ends P (λ a d. X × R d) E m
    → Ends P (λ _. R) E m
Ends-after {A} {X} {P} {R} {E} {m} h = record { at = λ w p. plain (m w).1.disk (m w).0 (h.at w p) }
  where
    plain : (d : Disk) (r : Result A) → EndsIn (λ a d. X × R d) E r d → EndsIn (λ _. R) E r d
    plain d (ok a) e = e.1
    plain d (err x) e = e

-- What is known besides the tree.
pub Ends-given :
    {A X : Type 0} {P E : Disk → Type 0} {Q : A → Disk → Type 0} {m : Fs A}
    → (X → Ends P Q E m)
    → Ends (λ d. X × P d) Q E m
Ends-given h = record { at = λ w p. (h p.0).at w p.1 }

pub Keeps-given :
    {A X : Type 0} {P : Disk → Type 0} {Q : A → Type 0} {m : Fs A}
    → Keeps P Q m
    → Keeps (λ d. X × P d) Q m
Keeps-given k = record { at = λ w h. ((h.0, (k.at w h.1).0), (k.at w h.1).1) }

pub Keeps-either :
    {P R : Disk → Type 0} {m : Fs Unit}
    → Keeps P Always m
    → Keeps R Always m
    → Keeps (λ d. P d ⊎ R d) Always m
Keeps-either {P} {R} {m} k l = record { at = λ w h. (either w h, (k-post (m w).0)) }
  where
    either : (w : World) → P w.disk ⊎ R w.disk → P (m w).1.disk ⊎ R (m w).1.disk
    either w (inl p) = inl (k.at w p).0
    either w (inr r) = inr (l.at w r).0

    k-post : (r : Result Unit) → Post Always r
    k-post (ok a) = tt
    k-post (err e) = tt

-- Writing a file that no directory hides either writes it or leaves the tree.
pub place-EndsIn :
    (p : FilePath) (c : Content) (d : Disk) (r : Result Node) (o : Option Node)
    → EndsIn
        (λ _ d'. d' ≡ insert p (file c) d)
        (λ d'. d' ≡ d)
        (place p c d r o).0
        (place p c d r o).1
place-EndsIn p c d (ok dir) (some dir) = refl
place-EndsIn p c d (ok dir) (some (file x)) = refl
place-EndsIn p c d (ok dir) none = refl
place-EndsIn p c d (ok (file x)) o = refl
place-EndsIn p c d (err e) o = refl
