-- ===== src/Model/Check.antt =====
-- `check_document` and the checks that it is made of: examples/web/rsswitch_web/model.py. The
-- functions take and return `seen`, the set that `_check_id` adds to.
use librsswitch.Base.{
  ℕ, suc, Bool, true, false, not, ◌&&◌, ◌||◌, List, [], ◌∷◌, ◌++◌, Option, none, some, leb, length,
  ◌==◌ as nat_eq, if◌then◌else◌,
}
use librsswitch.Base.Int.{pos}
use librsswitch.Base.Result.{Result, ok, err, ◌>>=◌, ◌>>◌, raise_if}
use librsswitch.Base.Text.{Text, text, ◌==◌, lt_text, contains, decimal}
use librsswitch.Json.{Value, null, int, str, arr, obj, Items, nil, cons, Fields, get, has, keys_of}
use librsswitch.Model.Types.{Kind, find_kind, kind_names, format_version, address_problem}

-- What a check raises: a DocumentError with its message, or the KeyError of a subscript.
pub data CheckError : Type 0 where
  document_error : Text → CheckError
  key_error : Text → CheckError

abbrev pub Checked : Type 0 → Type 0
Checked = Result CheckError

-- ID_PATTERN.fullmatch
unfoldable pub is_id_char : ℕ → Bool
is_id_char c =
    (leb b'A' c && leb c b'Z')
    || (leb b'a' c && leb c b'z')
    || (leb b'0' c && leb c b'9')
    || nat_eq c b'_'
    || nat_eq c b'-'

unfoldable pub all_id_chars : Text → Bool
all_id_chars [] = true
all_id_chars (c ∷ s) = is_id_char c && all_id_chars s

unfoldable pub matches_id_pattern : Text → Bool
matches_id_pattern s = leb 1 (length s) && leb (length s) 64 && all_id_chars s

-- `_join`
unfoldable pub join : Text → Text → Text
join [] key = key
join (c ∷ path) key = (c ∷ path) ++ text "." ++ key

-- `fields[key]`
unfoldable pub subscript : Text → Fields → Checked Value
subscript key fields = elim (get key fields) [ none ↦ err (key_error key) | some v ↦ ok v ]

unfoldable pub smaller : Text → Option Text → Text
smaller k none = k
smaller k (some m) = if lt_text m k then m else k

-- The first of `sorted(k for k in obj if k not in keys)`.
unfoldable pub first_unknown : List Text → List Text → Option Text
unfolding smaller
first_unknown [] keys = none
first_unknown (k ∷ ks) keys =
    let rest = first_unknown ks keys in if contains k keys then rest else some (smaller k rest)

unfoldable pub require_keys : List Text → Fields → Text → Checked (Unit {0})
require_keys [] fields path = ok tt
require_keys (key ∷ keys) fields path =
    let rest = require_keys keys fields path in
    if has key fields then rest else err (document_error (join path key ++ text ": missing"))

-- `_check_keys`
unfoldable pub check_keys : Fields → List Text → Text → Checked (Unit {0})
check_keys fields keys path = elim (first_unknown (keys_of fields) keys) [
  | some key ↦ err (document_error (join path key ++ text ": unknown key"))
  | none ↦ require_keys keys fields path
]

-- `_check_id`
unfoldable pub check_id : Value → Text → List Text → Checked (List Text)
check_id (str value) path seen =
    if not (matches_id_pattern value)
    then err (document_error (path ++ text ": must be 1-64 characters of A-Z a-z 0-9 _ -"))
    else if contains value seen
    then err (document_error (path ++ text ": duplicate id '" ++ value ++ text "'"))
    else ok (value ∷ seen)
check_id _ path seen =
    err (document_error (path ++ text ": must be 1-64 characters of A-Z a-z 0-9 _ -"))

-- `_check_str`
unfoldable pub check_str : Value → Text → Checked (Unit {0})
check_str (str value) path = ok tt
check_str _ path = err (document_error (path ++ text ": must be a string"))

unfoldable pub is_state : Value → Bool
is_state (str s) = s == text "on" || s == text "off"
is_state _ = false

abbrev pub last_sent_keys : List Text
last_sent_keys = text "state" ∷ text "at" ∷ []

-- `_check_last_sent`
unfoldable pub check_last_sent : Value → Text → Checked (Unit {0})
check_last_sent null path = ok tt
check_last_sent (obj fields) path = do
  check_keys fields last_sent_keys path
  state ← subscript (text "state") fields
  raise_if (not (is_state state))
      (document_error (join path (text "state") ++ text ": must be \"on\" or \"off\""))
  at ← subscript (text "at") fields
  check_str at (join path (text "at"))
check_last_sent _ path = err (document_error (path ++ text ": must be null or an object"))

-- The socket type that a value names, or the error of the path `path`.type.
unfoldable pub check_type : Value → Text → Checked Kind
check_type (str name) path = elim (find_kind name) [
  | some kind ↦ ok kind
  | none ↦
      err (document_error (join path (text "type") ++ text ": must be one of " ++ text kind_names))
]
check_type _ path =
    err (document_error (join path (text "type") ++ text ": must be one of " ++ text kind_names))

unfoldable pub check_address : Kind → Value → Value → Text → Checked (Unit {0})
check_address kind group number path = elim (address_problem kind group number) [
  | none ↦ ok tt
  | some (name, message) ↦ err (document_error (join path name ++ text ": " ++ message))
]

abbrev pub socket_keys : List Text
socket_keys =
    text "id" ∷ text "name" ∷ text "type" ∷ text "group" ∷ text "number" ∷ text "last_sent" ∷ []

-- `_check_socket`
unfoldable pub check_socket : Value → Text → List Text → Checked (List Text)
check_socket (obj sock) path seen = do
  check_keys sock socket_keys path
  id ← subscript (text "id") sock
  seen' ← check_id id (join path (text "id")) seen
  name ← subscript (text "name") sock
  check_str name (join path (text "name"))
  type_name ← subscript (text "type") sock
  kind ← check_type type_name path
  group ← subscript (text "group") sock
  number ← subscript (text "number") sock
  check_address kind group number path
  last_sent ← subscript (text "last_sent") sock
  check_last_sent last_sent (join path (text "last_sent"))
  ok seen'
check_socket _ path seen = err (document_error (path ++ text ": must be an object"))

-- The loop over `room["sockets"]`, from the index j.
unfoldable pub check_sockets : Items → Text → ℕ → List Text → Checked (List Text)
check_sockets nil rpath j seen = ok seen
check_sockets (cons sock socks) rpath j seen = do
  seen' ← check_socket sock (rpath ++ text ".sockets[" ++ decimal j ++ text "]") seen
  check_sockets socks rpath (suc j) seen'

unfoldable pub check_socket_list : Value → Text → List Text → Checked (List Text)
check_socket_list (arr socks) rpath seen = check_sockets socks rpath 0 seen
check_socket_list _ rpath seen =
    err (document_error (join rpath (text "sockets") ++ text ": must be a list"))

abbrev pub room_keys : List Text
room_keys = text "id" ∷ text "name" ∷ text "sockets" ∷ []

-- One round of the loop over the rooms.
unfoldable pub check_room : Value → Text → List Text → Checked (List Text)
check_room (obj room) rpath seen = do
  check_keys room room_keys rpath
  id ← subscript (text "id") room
  seen' ← check_id id (join rpath (text "id")) seen
  name ← subscript (text "name") room
  check_str name (join rpath (text "name"))
  socks ← subscript (text "sockets") room
  check_socket_list socks rpath seen'
check_room _ rpath seen = err (document_error (rpath ++ text ": must be an object"))

unfoldable pub check_rooms : Items → ℕ → List Text → Checked (List Text)
check_rooms nil i seen = ok seen
check_rooms (cons room rooms) i seen = do
  seen' ← check_room room (text "rooms[" ++ decimal i ++ text "]") seen
  check_rooms rooms (suc i) seen'

unfoldable pub check_room_list : Value → Checked (Unit {0})
check_room_list (arr rooms) = do seen ← check_rooms rooms 0 []; ok tt
check_room_list _ = err (document_error (text "rooms: must be a list"))

unfoldable pub is_version : Value → Bool
is_version (int (pos n)) = nat_eq n format_version
is_version _ = false

abbrev pub document_keys : List Text
document_keys = text "version" ∷ text "rooms" ∷ []

unfoldable pub check_document : Value → Checked (Unit {0})
check_document (obj doc) = do
  check_keys doc document_keys []
  version ← subscript (text "version") doc
  raise_if (not (is_version version))
      (document_error (text "version: must be the integer " ++ decimal format_version))
  rooms ← subscript (text "rooms") doc
  check_room_list rooms
check_document _ = err (document_error (text "document: must be a JSON object"))
