-- ===== src/Config/Checks.antt =====
-- internal/config/config.go: which settings Validate accepts after Load.
use home_store.Prelude.{◌≡◌, ◌≢◌, ◌↔◌, arith, Option, none, some, []}
use home_store.Prelude.Bytes.{Bytes, codes, bytes_eq_iff}
use home_store.Config.{Config, Flags, get_env, flag_value, load, validate}

-- A flag for the data directory counts before the environment variable.
abbrev pub HasDataDir : (Bytes → Bytes) → Option Bytes → Type 0
HasDataDir environment (some dir) = dir ≢ []
HasDataDir environment none = environment (codes "HOME_STORE_DATA_DIR") ≢ []

validate-dir : (c : Config) → (validate c ≡ none) ↔ (c.data_dir ≢ [])
unfolding validate
validate-dir c = (
  λ e q. ground (arith, e, bytes_eq_iff c.data_dir []),
  λ h. ground (arith, bytes_eq_iff c.data_dir []),
)

-- With an empty default, what counts is the variable itself.
get_env-dir :
    (environment : Bytes → Bytes) (key : Bytes)
    → (get_env environment key [] ≢ []) ↔ (environment key ≢ [])
unfolding get_env
get_env-dir environment key = (
  λ h e. h (ground (arith, bytes_eq_iff (environment key) [])),
  λ h e. h (ground (arith, bytes_eq_iff (environment key) [])),
)

chosen :
    (environment : Bytes → Bytes) (f : Option Bytes)
    → (flag_value f (get_env environment (codes "HOME_STORE_DATA_DIR") []) ≢ [])
      ↔ HasDataDir environment f
chosen environment none = get_env-dir environment (codes "HOME_STORE_DATA_DIR")
chosen environment (some dir) = (λ h. h, λ h. h)

-- Validate accepts what Load gives exactly when the flag for the data directory is given and not
-- empty, or it is not given and the environment variable is not empty.
pub validate-load :
    (environment : Bytes → Bytes) (flags : Flags)
    → (validate (load environment flags) ≡ none) ↔ HasDataDir environment flags.data_dir
unfolding load
validate-load environment flags =
    let d = validate-dir (load environment flags) in
    let c = chosen environment flags.data_dir in (λ e. c.0 (d.0 e), λ h. d.1 (c.1 h))
