-- ===== src/Config.antt =====
-- The configuration: examples/web/rsswitch_web/config.py. What the code asks of `ipaddress`, `os`,
-- `difflib`, `hashlib`, `unicodedata` and `werkzeug.security` is the record `Platform`.
pub mod Hash
pub mod Resolve
pub mod Laws
pub mod Again
use librsswitch.Base.{
  ℕ, ◌*◌, ◌^◌, Bool, true, false, not, ◌&&◌, ◌||◌, List, [], ◌∷◌, ◌++◌, Option, none, some, leb,
  ltb, ◌==◌ as nat_eq, if◌then◌else◌,
}
use librsswitch.Base.Int.{pos}
use librsswitch.Base.Text.{Text, text, ◌==◌, lt_text, decimal}
use librsswitch.Json.{Float, finite, Value, null, int, float, str}
use librsswitch.Validation.{Unicode, Category, is_control, is_surrogate}

-- What `check_password_hash` does: it tells whether the password matches, or raises.
pub data Verdict : Type 0 where
  matches differs : Verdict
  unusable : Text → Verdict

pub record Platform : Type 0 where
  pub unicode : Unicode
  -- `ipaddress.ip_address(value)`: the version, or a ValueError
  pub ip_version : Text → Option ℕ
  -- `str.lower` of one character
  pub lower : ℕ → Text
  pub is_abs : Text → Bool
  pub close_match : Text → Option Text
  pub is_guaranteed : Text → Bool
  -- whether `hashlib.pbkdf2_hmac` takes the name
  pub takes_pbkdf2 : Text → Bool
  pub check_password_hash : Text → Text → Verdict
  -- the longest text that `int` converts
  pub max_str_digits : ℕ

-- Why a value is not acceptable: the result of a check. `crashed` is an exception that the check
-- lets through.
pub data Reason : Type 0 where
  accepted : Reason
  refused : Text → Reason
  crashed : Reason

abbrev pub max_daemon_timeout : ℕ
max_daemon_timeout = 60

abbrev pub max_gap_ms : ℕ
max_gap_ms = 10000

-- `_is_int`, of bounds that are not negative
unfoldable pub is_int : Value → ℕ → ℕ → Bool
is_int (int (pos n)) low high = leb low n && leb n high
is_int _ low high = false

unfoldable pub or_refused : Bool → Text → Reason
or_refused true why = accepted
or_refused false why = refused why

-- `_port_check(low)`
unfoldable pub check_port : ℕ → Value → Reason
unfolding is_int or_refused
check_port low v =
    or_refused (is_int v low 65535)
      (text "must be an integer from " ++ decimal low ++ text " to 65535")

-- 0 < value <= MAX_DAEMON_TIMEOUT, of a number m / 2 ^ k
unfoldable pub is_timeout : Value → Bool
is_timeout (int (pos n)) = ltb 0 n && leb n max_daemon_timeout
is_timeout (float (finite (pos m) k)) = ltb 0 m && leb m (max_daemon_timeout * 2 ^ k)
is_timeout _ = false

unfoldable pub check_timeout : Value → Reason
unfolding is_timeout or_refused
check_timeout v =
    or_refused (is_timeout v) (text "must be a number greater than 0 and at most 60 (seconds)")

unfoldable pub check_threads : Value → Reason
unfolding is_int or_refused
check_threads v = or_refused (is_int v 1 16) (text "must be an integer from 1 to 16")

unfoldable pub check_gap : Value → Reason
unfolding is_int or_refused
check_gap v =
    or_refused (is_int v 0 max_gap_ms) (text "must be an integer from 0 to 10000 (milliseconds)")

-- `"\0" in value` and `":" in value`
unfoldable pub has_char : ℕ → Text → Bool
has_char c [] = false
has_char c (d ∷ s) = nat_eq c d || has_char c s

unfoldable pub is_empty : Text → Bool
is_empty [] = true
is_empty (c ∷ s) = false

abbrev pub not_an_address : Text
not_an_address = text "must be an IP address such as 127.0.0.1"

module _ (os : Platform) where
  -- any("a" <= c.lower() <= "z" for c in value)
  unfoldable pub has_letter : Text → Bool
  has_letter [] = false
  has_letter (c ∷ s) =
      (not (lt_text (os.lower c) (text "a")) && not (lt_text (text "z") (os.lower c)))
      || has_letter s

  unfoldable pub check_host_text : Text → Option ℕ → Reason
  unfolding has_letter
  check_host_text value none =
      if has_letter value
      then refused (not_an_address ++ text ", not a host name (write 127.0.0.1 for localhost)")
      else refused not_an_address
  check_host_text value (some version) =
      if nat_eq version 4
      then accepted
      else refused (
          text "must be an IPv4 address such as 127.0.0.1, "
          ++ text "rsswitchd listens on IPv4 only")

  unfoldable pub check_host : Value → Reason
  unfolding check_host_text
  check_host (str value) = check_host_text value (os.ip_version value)
  check_host _ = refused not_an_address

  unfoldable pub check_listen_address : Value → Reason
  check_listen_address (str value) = elim (os.ip_version value) [
    | none ↦ refused (text "must be an IP address such as 0.0.0.0 or ::, not a name")
    | some version ↦ accepted
  ]
  check_listen_address _ = refused (text "must be an IP address such as 0.0.0.0 or ::")

  unfoldable pub check_data_file : Value → Reason
  unfolding has_char
  check_data_file (str value) =
      if not (os.is_abs value)
      then refused (text "must be an absolute path")
      else if has_char 0 value
      then refused (text "must not contain a NUL character")
      else accepted
  check_data_file _ = refused (text "must be an absolute path")

  -- any(unicodedata.category(c) in ("Cc", "Cs") for c in value)
  unfoldable pub has_refused_char : Text → Bool
  unfolding is_control is_surrogate
  has_refused_char [] = false
  has_refused_char (c ∷ s) =
      (is_control (os.unicode.category c) || is_surrogate (os.unicode.category c))
      || has_refused_char s

  unfoldable pub check_username : Value → Reason
  unfolding has_char has_refused_char is_empty
  check_username null = accepted
  check_username (str value) =
      if is_empty value
      then refused (text "must be null or a non-empty string")
      else if has_char b':' value
      then refused (text "must not contain ':', which Basic authentication cannot carry")
      else if has_refused_char value
      then refused (text "must not contain control characters")
      else accepted
  check_username _ = refused (text "must be null or a non-empty string")
