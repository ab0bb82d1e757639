-- ===== src/Config/Resolve.antt =====
-- The keys of the configuration, and load_config and resolve_config of
-- examples/web/rsswitch_web/config.py.
use librsswitch.Base.{
  Bool, true, false, List, [], ◌∷◌, ◌++◌, Option, none, some, map, if◌then◌else◌,
}
use librsswitch.Base.Int.{pos}
use librsswitch.Base.Result.{Result, ok, err, ◌>>◌}
use librsswitch.Base.Text.{Text, text}
use librsswitch.Json.{Value, null, int, str, obj, Fields, end, get, keys_of}
use librsswitch.Jsonutil.{bytes, Stdlib, ValueError, strict_loads}
use librsswitch.Model.Check.{first_unknown}
use librsswitch.Store.File.{File, missing, unreadable, contents}
use librsswitch.Config.{
  Platform, Reason, accepted, refused, crashed, check_port, check_timeout, check_threads, check_gap,
  check_host, check_listen_address, check_data_file, check_username,
}
use librsswitch.Config.Hash.{check_hash}

-- The keys of DEFAULTS and _CHECKS.
pub data Key : Type 0 where
  daemon_host daemon_port daemon_connect_timeout daemon_read_timeout : Key
  listen_address listen_port threads data_file all_off_gap_ms username password_hash : Key

-- In the order of the two dicts.
abbrev pub all_keys : List Key
all_keys =
    daemon_host ∷ daemon_port ∷ daemon_connect_timeout ∷ daemon_read_timeout ∷ listen_address
    ∷ listen_port ∷ threads ∷ data_file ∷ all_off_gap_ms ∷ username ∷ password_hash ∷ []

unfoldable pub key_name : Key → Text
key_name daemon_host = text "daemon_host"
key_name daemon_port = text "daemon_port"
key_name daemon_connect_timeout = text "daemon_connect_timeout"
key_name daemon_read_timeout = text "daemon_read_timeout"
key_name listen_address = text "listen_address"
key_name listen_port = text "listen_port"
key_name threads = text "threads"
key_name data_file = text "data_file"
key_name all_off_gap_ms = text "all_off_gap_ms"
key_name username = text "username"
key_name password_hash = text "password_hash"

abbrev pub key_names : List Text
key_names = map key_name all_keys

-- DEFAULTS
unfoldable pub default_of : Key → Value
default_of daemon_host = str (text "127.0.0.1")
default_of daemon_port = int (pos 5000)
default_of daemon_connect_timeout = int (pos 2)
default_of daemon_read_timeout = int (pos 5)
default_of listen_address = str (text "127.0.0.1")
default_of listen_port = int (pos 8080)
default_of threads = int (pos 4)
default_of data_file = str (text "/var/lib/rsswitch-web/data.json")
default_of all_off_gap_ms = int (pos 200)
default_of username = null
default_of password_hash = null

-- A configuration with a value for each key.
abbrev pub Settings : Type 0
Settings = Key → Value

-- A ConfigError, or an exception of another class.
pub data Trouble : Type 0 where
  config_error : Text → Trouble
  other_error : Trouble

abbrev pub Configured {ℓ} : Type ℓ → Type ℓ
Configured = Result Trouble

-- `cfg = dict(DEFAULTS)` and `cfg.update(mapping)`
unfoldable pub laid_over : Fields → Settings
laid_over mapping key = elim (get (key_name key) mapping) [ none ↦ default_of key | some v ↦ v ]

-- What is raised for the reason of one key.
unfoldable pub raise_reason : Key → Reason → Configured (Unit {0})
raise_reason key accepted = ok tt
raise_reason key (refused why) =
    err (config_error (text "config: key '" ++ key_name key ++ text "': " ++ why))
raise_reason key crashed = err other_error

unfoldable pub is_null : Value → Bool
is_null null = true
is_null _ = false

-- `cfg["username"] = "admin"`
unfoldable pub as_admin : Settings → Settings
as_admin cfg username = str (text "admin")
as_admin cfg key = cfg key

-- The last two tests, by whether the username and the password hash are None.
unfoldable pub with_login : Bool → Bool → Settings → Configured Settings
unfolding as_admin
with_login false true cfg = err (
    config_error (
      text "config: key 'username': needs a password_hash, "
      ++ text "or the app would not ask for a login"))
with_login true false cfg = ok (as_admin cfg)
with_login _ _ cfg = ok cfg

-- What `load_config` finds, and whether the file was asked for by name.
unfoldable pub as_mapping : Result ValueError Value → Configured Fields
as_mapping (ok (obj fields)) = ok fields
as_mapping (ok _) = err (config_error (text "config: must be a JSON object"))
as_mapping (err e) = err (config_error (text "config: not valid JSON"))

-- DEFAULT_CONFIG_PATH
abbrev pub default_config_path : Text
default_config_path = text "/etc/rsswitch-web/config.json"

-- The lines that `load_config` writes to stderr.
unfoldable pub load_said : Bool → File → List Text
load_said false missing =
    (text "rsswitch-web: warning: "
      ++ default_config_path
      ++ text " not found, using built-in defaults")
    ∷ []
load_said _ _ = []

-- What `load_config` returns or raises. Of the message of a ConfigError only the part before the path is kept.
unfoldable pub load_config : Stdlib → Bool → File → Configured Fields
unfolding as_mapping
load_config lib explicit missing =
    if explicit then err (config_error (text "config: cannot read")) else ok end
load_config lib explicit unreadable = err (config_error (text "config: cannot read"))
load_config lib explicit (contents raw) = as_mapping (strict_loads lib (bytes raw))

module _ (os : Platform) where
  -- _CHECKS
  unfoldable pub check_of : Key → Value → Reason
  check_of daemon_host = check_host os
  check_of daemon_port = check_port 1
  check_of daemon_connect_timeout = check_timeout
  check_of daemon_read_timeout = check_timeout
  check_of listen_address = check_listen_address os
  check_of listen_port = check_port 0
  check_of threads = check_threads
  check_of data_file = check_data_file os
  check_of all_off_gap_ms = check_gap
  check_of username = check_username os
  check_of password_hash = check_hash os

  -- The loop over _CHECKS.
  unfoldable pub check_keys : List Key → Settings → Configured (Unit {0})
  check_keys [] cfg = ok tt
  check_keys (key ∷ keys) cfg = do raise_reason key (check_of key (cfg key)); check_keys keys cfg

  -- The message for a key that is not in DEFAULTS.
  unfoldable pub unknown_key : Text → Option Text → Text
  unknown_key key none = text "config: unknown key '" ++ key ++ text "'"
  unknown_key key (some match) =
      text "config: unknown key '"
      ++ key
      ++ text "'"
      ++ text " (did you mean '"
      ++ match
      ++ text "'?)"

  -- The checks of `cfg`, and the two tests of the login.
  unfoldable pub resolve_with : Settings → Configured Settings
  resolve_with cfg = do
    check_keys all_keys cfg
    with_login (is_null (cfg username)) (is_null (cfg password_hash)) cfg

  -- By the first key that is not in DEFAULTS.
  unfoldable pub resolve_known : Option Text → Fields → Configured Settings
  unfolding unknown_key resolve_with
  resolve_known (some key) mapping = err (config_error (unknown_key key (os.close_match key)))
  resolve_known none mapping = resolve_with (laid_over mapping)

  unfoldable pub resolve_fields : Fields → Configured Settings
  unfolding resolve_known
  resolve_fields mapping = resolve_known (first_unknown (keys_of mapping) key_names) mapping

  -- `resolve_config`, null for no mapping
  unfoldable pub resolve_config : Value → Configured Settings
  unfolding resolve_fields
  resolve_config null = resolve_fields end
  resolve_config (obj fields) = resolve_fields fields
  resolve_config _ = err (config_error (text "config: must be a JSON object"))
