-- ===== src/Model/Types.antt =====
-- The socket types, the limits of an address, and the typed form of a data file:
-- examples/web/rsswitch_web/model.py. A document that `check_document` accepts is a Python
-- dict; the code behind the store reads it by keys that are there, and so the model gives it
-- as records. `Model.View` says which record a checked dict is.
use librsswitch.Base.{
  ℕ, ◌-◌, Bool, false, not, List, [], ◌++◌, Option, none, some, String, ltb, if◌then◌else◌,
}
use librsswitch.Base.Int.{pos}
use librsswitch.Base.Text.{Text, text, ◌==◌, decimal}
use librsswitch.Json.{Value, int}

abbrev pub format_version : ℕ
format_version = 1

pub record SocketType : Type 0 where
  pub dev : ℕ
  pub groups : ℕ
  pub sockets : ℕ

-- The keys of SOCKET_TYPES.
pub data Kind : Type 0 where
  rev_008345 pollin_2605 : Kind

-- SOCKET_TYPES
abbrev pub socket_types : Kind → SocketType
socket_types rev_008345 = record { dev = 0; groups = 4; sockets = 3 }
socket_types pollin_2605 = record { dev = 1; groups = 32; sockets = 32 }

unfoldable pub kind_name : Kind → Text
kind_name rev_008345 = text "rev_008345"
kind_name pollin_2605 = text "pollin_2605"

-- The key of SOCKET_TYPES that a string is, if it is one.
unfoldable pub find_kind : Text → Option Kind
unfolding kind_name
find_kind name =
    if name == kind_name rev_008345
    then some rev_008345
    else if name == kind_name pollin_2605
    then some pollin_2605
    else none

-- ", ".join(SOCKET_TYPES)
abbrev pub kind_names : String
kind_names = "rev_008345, pollin_2605"

pub data State : Type 0 where
  on off : State

pub record LastSent : Type 0 where
  pub state : State
  pub at : Text

pub record Socket : Type 0 where
  pub id : Text
  pub name : Text
  pub kind : Kind
  pub group : ℕ
  pub number : ℕ
  pub last_sent : Option LastSent

pub record Room : Type 0 where
  pub id : Text
  pub name : Text
  pub sockets : List Socket

pub record Document : Type 0 where
  pub version : ℕ
  pub rooms : List Room

abbrev pub empty_document : Document
empty_document = record { version = format_version; rooms = [] }

-- `value` is a real integer in 0 … limit - 1.
unfoldable pub in_range : Value → ℕ → Bool
in_range (int (pos n)) limit = ltb n limit
in_range _ limit = false

-- The first field of an address that is not valid, with its message.
unfoldable pub address_problem : Kind → Value → Value → Option (Text × Text)
address_problem kind group number =
    let limits = socket_types kind in
    if not (in_range group limits.groups)
    then some (text "group", text "must be an integer 0-" ++ decimal (limits.groups - 1))
    else if not (in_range number limits.sockets)
    then some (text "number", text "must be an integer 0-" ++ decimal (limits.sockets - 1))
    else none
