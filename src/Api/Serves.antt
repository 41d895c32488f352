-- ===== src/Api/Serves.antt =====
-- What a handler does whatever the backend reports: it answers, and it keeps what its calls keep.
pub mod Buckets
pub mod Objects
pub mod Lists
pub mod Multipart
pub mod Handler
use home_store.Prelude.{ℕ, ◌≡◌, refl, ◌==◌, Bool, true, false, [], ◌∷◌, any, if◌then◌else◌}
use home_store.Os.Disk.{Disk}
use home_store.Os.Exec.{World, Result, ok, err, Fs, pure, attempt, ◌>>=◌}
use home_store.Os.Stable.{Post, Keeps}
use home_store.Http.{HttpResponse}

-- The status codes that the handlers write.
abbrev pub HasStatus : HttpResponse → Type 0
HasStatus r = any (λ s. s == r.status) (200 ∷ 204 ∷ 400 ∷ 404 ∷ 405 ∷ 409 ∷ 500 ∷ []) ≡ true

-- There is a response, and its status is one of those.
abbrev pub IsAnswer : Result HttpResponse → Type 0
IsAnswer (ok r) = HasStatus r
IsAnswer (err e) = ⊥

pub record Serves (P : Disk → Type 0) (m : Fs HttpResponse) : Type 0 where
  pub at : (w : World) → P w.disk → P (m w).1.disk × IsAnswer (m w).0

module _ {P : Disk → Type 0} where
  pub Serves-pure : (r : HttpResponse) → HasStatus r → Serves P (pure r)
  unfolding pure
  Serves-pure r s = record { at = λ w h. (h, s) }

  pub Serves-attempt :
      {A : Type 0} {Q : A → Type 0} (m : Fs A) (f : Result A → Fs HttpResponse)
      → Keeps P Q m
      → ((x : Result A) → Serves P (f x))
      → Serves P (attempt m >>= f)
  unfolding ◌>>=◌
  Serves-attempt m f k s = record { at = λ w h. (s (m w).0).at (m w).1 (k.at w h).0 }

  pub Serves-if :
      (b : Bool) (m n : Fs HttpResponse)
      → (b ≡ true → Serves P m)
      → (b ≡ false → Serves P n)
      → Serves P (if b then m else n)
  Serves-if true m n s t = s refl
  Serves-if false m n s t = t refl

-- An operation of a backend, followed by a response that is made of its result.
pub Serves-reply :
    {A : Type 0} {P : Disk → Type 0} {Q : A → Type 0} (m : Fs A) (f : Result A → HttpResponse)
    → Keeps P Q m
    → ((x : Result A) → HasStatus (f x))
    → Serves P (attempt m >>= λ x. pure (f x))
Serves-reply m f k s = Serves-attempt m _ k (λ x. Serves-pure (f x) (s x))
