-- ===== src/Fs/Runs/Uploads/PartNames.antt =====
-- internal/storage/fs/multipart.go: the names of the files of an upload's parts.
use mathlib.Core.List.{append_cancel_left, append_cancel_right}
use home_store.Prelude.{ℕ, ◌≤◌, ◌≡◌, ◌≢◌, refl, sym, ap, ◌∙◌, arith, true, [], ◌∷◌, ◌++◌, length}
use home_store.Prelude.Bytes.{Bytes, codes}
use home_store.Storage.Names.{is_valid_bucket_name}
use home_store.Os.Path.{FilePath}
use home_store.Os.Calls.{Env}
use home_store.Fs.Parts.{valid_part_number, itoa}
use home_store.Http.Numbers.RoundTrip.{itoa-injective}
use home_store.Fs.Runs.Uploads.Combine.{data_name, meta_name}

-- The last byte of a text, or `c`.
last_of : ℕ → Bytes → ℕ
last_of c [] = c
last_of c (d ∷ s) = last_of d s

last_of-append : (c : ℕ) (a : Bytes) (d : ℕ) (s : Bytes) → last_of c (a ++ d ∷ s) ≡ last_of d s
unfolding last_of
last_of-append c [] d s = refl
last_of-append c (x ∷ a) d s = last_of-append x a d s

abbrev pub head_of : Bytes → ℕ
head_of [] = 0
head_of (c ∷ s) = c

abbrev only : FilePath → Bytes
only (c ∷ []) = c
only p = []

-- Different names in a directory are different files.
pub name-ne : (p : FilePath) (s t : Bytes) → s ≢ t → p ++ s ∷ [] ≢ p ++ t ∷ []
name-ne p s t h e = h (ap only (append_cancel_left p (s ∷ []) (t ∷ []) e))

module _ (env : Env) (sized : (k : Bytes) → length (env.sha256 k) ≡ 32) (b : Bytes)
    (valid : is_valid_bucket_name b ≡ true) (id : Bytes) where
  pub data-ne-meta : (m n : ℕ) → data_name env sized b valid id m ≢ meta_name env sized b valid id n
  unfolding last_of
  data-ne-meta m n e =
      let h : ◌≡◌ {A = ℕ} b'a' b'n' =
        sym (last_of-append 0 (codes "part-" ++ itoa m) b'.' (codes "data"))
        ∙ ap (last_of 0) e
        ∙ last_of-append 0 (codes "part-" ++ itoa n) b'.' (codes "json") in
      omega (arith, h)

  valid_int : (n : ℕ) → valid_part_number n ≡ true → n ≤ 9223372036854775807
  unfolding valid_part_number
  valid_int n v = ground arith

  module _ (m n : ℕ) (vm : valid_part_number m ≡ true) (vn : valid_part_number n ≡ true)
      (h : m ≢ n) where
    pub data-ne : data_name env sized b valid id m ≢ data_name env sized b valid id n
    data-ne e = h (
        itoa-injective m n (valid_int m vm) (valid_int n vn) (
          append_cancel_right (itoa m) (itoa n) (codes ".data")
            (append_cancel_left (codes "part-") _ _ e)))

    pub meta-ne : meta_name env sized b valid id m ≢ meta_name env sized b valid id n
    meta-ne e = h (
        itoa-injective m n (valid_int m vm) (valid_int n vn) (
          append_cancel_right (itoa m) (itoa n) (codes ".json")
            (append_cancel_left (codes "part-") _ _ e)))

  abbrev temp_name : Bytes
  temp_name = codes ".part-" ++ env.suffix

  pub temp-ne-part : (s : Bytes) → temp_name ≢ codes "part-" ++ s
  temp-ne-part s e = let h : ◌≡◌ {A = ℕ} b'.' b'p' = ap head_of e in omega (arith, h)
