-- ===== src/Config.antt =====
-- internal/config/config.go: flags, with environment variables behind them.
pub mod Checks
use home_store.Prelude.{◌≡◌, Bool, Option, none, some, List, [], ◌∷◌, ◌++◌, if◌then◌else◌}
use home_store.Prelude.Bytes.{Bytes, codes, bytes_eq}

pub record Config : Type 0 where
  pub addr : Bytes
  pub data_dir : Bytes
  pub log_level : Bytes
  pub auth_disabled : Bool

-- What package flag has read from the command line: `none` for a flag that is not given.
pub record Flags : Type 0 where
  pub addr : Option Bytes
  pub data_dir : Option Bytes
  pub log_level : Option Bytes
  pub auth_disabled : Bool

-- os.Getenv gives the empty string for a variable that is not set.
unfoldable pub get_env : (Bytes → Bytes) → Bytes → Bytes → Bytes
unfolding bytes_eq
get_env environment key default_value =
    if bytes_eq (environment key) [] then default_value else environment key

abbrev pub flag_value : Option Bytes → Bytes → Bytes
flag_value none default_value = default_value
flag_value (some v) default_value = v

unfoldable pub load : (Bytes → Bytes) → Flags → Config
unfolding get_env
load environment flags = record {
  addr =
      flag_value flags.addr (get_env environment (codes "HOME_STORE_ADDR") (codes "0.0.0.0:9000"));
  data_dir = flag_value flags.data_dir (get_env environment (codes "HOME_STORE_DATA_DIR") []);
  log_level =
      flag_value flags.log_level
        (get_env environment (codes "HOME_STORE_LOG_LEVEL") (codes "info"));
  auth_disabled = flags.auth_disabled;
}

-- ConfigError.Error
abbrev pub config_error : Bytes → Bytes
config_error msg = codes "config error: " ++ msg

-- The error, if there is one.
unfoldable pub validate : Config → Option Bytes
unfolding bytes_eq
validate c =
    if bytes_eq c.data_dir [] then some (config_error (codes "DataDir is required")) else none
