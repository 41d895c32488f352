-- ===== src/Os/Exec.antt =====
-- Programs that call the operating system: state passing with errors, where a call may fail.
use home_store.Prelude.{Bool, List, [], ◌∷◌}
use home_store.Storage.{Error, other}
use home_store.Os.Path.{FilePath}
use home_store.Os.Disk.{Disk}

-- How a call ends: it runs, it fails and changes nothing, or it fails midway.
pub data Fault : Type 0 where
  passed refused : Fault
  partial : (FilePath → Bool) → Fault

pub record World : Type 0 where
  pub disk : Disk
  pub faults : List Fault

-- The world in which no call fails for a reason of the environment.
abbrev pub calm : Disk → World
calm d = record { disk = d; faults = [] }

pub data Result (A : Type 0) : Type 0 where
  ok : A → Result A
  err : Error → Result A

abbrev pub Fs : Type 0 → Type 0
Fs A = World → Result A × World

module _ {A : Type 0} where
  unfoldable pub pure : A → Fs A
  pure a w = (ok a, w)

  unfoldable pub raise : Error → Fs A
  raise e w = (err e, w)

  -- `x, err := f(...)` where the code looks at `err`.
  unfoldable pub attempt : Fs A → Fs (Result A)
  attempt m w = let (r, w') = m w in (ok r, w')

  abbrev pub wrapped : Result A → Result A
  wrapped (ok a) = ok a
  wrapped (err e) = err other

  -- `return fmt.Errorf("...: %w", err)`: no longer equal to a sentinel error.
  unfoldable pub wrap : Fs A → Fs A
  wrap m w = let (r, w') = m w in (wrapped r, w')

  -- `defer`: the cleanup runs however the body ends, and its own errors are dropped.
  unfoldable pub deferred : Fs Unit → Fs A → Fs A
  deferred cleanup m w = let (r, w') = m w in let (c, w'') = cleanup w' in (r, w'')

  -- One call: what it does when it runs, and what it leaves behind when it fails midway.
  abbrev pub answer :
      (Disk → Result A × Disk) → ((FilePath → Bool) → Disk → Disk) → List Fault → Fs A
  answer step torn [] w = let (r, d) = step w.disk in (r, record { disk = d; faults = [] })
  answer step torn (passed ∷ fs) w =
      let (r, d) = step w.disk in (r, record { disk = d; faults = fs })
  answer step torn (refused ∷ fs) w = (err other, record { disk = w.disk; faults = fs })
  answer step torn (partial keep ∷ fs) w =
      (err other, record { disk = torn keep w.disk; faults = fs })

  abbrev pub call : (Disk → Result A × Disk) → ((FilePath → Bool) → Disk → Disk) → Fs A
  call step torn w = answer step torn w.faults w

module _ {A B : Type 0} where
  abbrev pub continue : Result A → (A → Fs B) → Fs B
  continue (ok a) f w = f a w
  continue (err e) f w = (err e, w)

  infixl 5 ◌>>=◌ ◌>>◌
  -- Opening this opens the other actions too.
  unfoldable pub ◌>>=◌ : Fs A → (A → Fs B) → Fs B
  unfolding pure raise attempt wrap deferred
  ◌>>=◌ m f w = let (r, w') = m w in continue r f w'

  abbrev pub ◌>>◌ : Fs A → Fs B → Fs B
  m >> n = m >>= λ _. n
