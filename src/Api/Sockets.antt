-- ===== src/Api/Sockets.antt =====
-- The socket routes: examples/web/rsswitch_web/api/sockets.py. `create`, `edit`, `delete` and
-- `order` are the functions that the routes give to `Store.mutate`.
pub mod Valid
pub mod Edit
use librsswitch.Base.{
  ℕ, Bool, true, false, not, ◌&&◌, ◌||◌, List, [], ◌∷◌, ◌++◌, Option, none, some, if◌then◌else◌,
}
use librsswitch.Base.Int.{pos}
use librsswitch.Base.Result.{Result, ok, err, ◌>>=◌, ◌>>◌, raise_if}
use librsswitch.Base.Text.{Text, text, ◌==◌}
use librsswitch.Json.{Value, int, str, arr, obj, Items, nil, cons, Fields, end, field, get, has}
use librsswitch.Errors.{Handled, invalid, reject_unknown_fields}
use librsswitch.Model.Types.{Kind, kind_name, LastSent, Socket, Room, Document}
use librsswitch.Model.Valid.{socket_ids, ids_of}
use librsswitch.Store.Find.{find_room, find_socket, update_socket, update_room, remove_in}
use librsswitch.Store.Record.{Address, address_of, same_address}
use librsswitch.Validation.{Unicode, clean_name, check_socket_fields}
use librsswitch.Api.Json.{socket_json, texts_json}
use librsswitch.Api.Common.{
  new_id, get_or_null, get_room, get_socket, check_socket_name, id_list, check_permutation, pick,
}
use librsswitch.Api.Rooms.{Change, with_rooms}

-- FIELDS and EDIT_FIELDS
abbrev pub socket_fields : List Text
socket_fields = text "name" ∷ text "type" ∷ text "group" ∷ text "number" ∷ []

abbrev pub edit_fields : List Text
edit_fields = text "name" ∷ text "type" ∷ text "group" ∷ text "number" ∷ text "room_id" ∷ []

-- The other sockets with the address, in display order.
unfoldable pub sharing : Text → Address → List Socket → List Text
sharing sid address [] = []
sharing sid address (s ∷ ss) =
    let rest = sharing sid address ss in
    if not (s.id == sid) && same_address (address_of s) address then s.id ∷ rest else rest

unfoldable pub sharing_in : Text → Address → List Room → List Text
unfolding sharing
sharing_in sid address [] = []
sharing_in sid address (r ∷ rs) = sharing sid address r.sockets ++ sharing_in sid address rs

unfoldable pub warnings_json : List Text → Items
warnings_json [] = nil
warnings_json (id ∷ ids) =
    cons
      (obj (
        field (text "code") (str (text "duplicate_address")) (
          field (text "message") (str (text "another socket uses the same type, group and number"))
            (field (text "socket_ids") (arr (texts_json (id ∷ ids))) end))))
      nil

-- `duplicate_warnings`, of a socket whose address is `address`
unfoldable pub duplicate_warnings : List Room → Text → Address → Items
unfolding sharing_in warnings_json
duplicate_warnings rooms sid address = warnings_json (sharing_in sid address rooms)

unfoldable pub reply : Room → Socket → List Room → Value
unfolding duplicate_warnings
reply room sock rooms = obj (
    field (text "socket") (socket_json room sock)
      (field (text "warnings") (arr (duplicate_warnings rooms sock.id (address_of sock))) end))

unfoldable pub read_socket : Document → Text → Handled Value
read_socket d sid = do
  (room, sock) ← get_socket d.rooms sid
  ok (obj (field (text "socket") (socket_json room sock) end))

abbrev pub append_to : Text → Socket → List Room → List Room
append_to rid sock = update_room rid (λ r. record r { sockets = r.sockets ++ sock ∷ [] })

abbrev pub remove_from : Text → Text → List Room → List Room
remove_from rid sid = update_room rid (λ r. record r { sockets = remove_in sid r.sockets })

unfoldable pub delete : Text → Document → Handled ((Unit {0}) × Document)
delete sid d = do
  (room, sock) ← get_socket d.rooms sid
  ok (tt, with_rooms d (remove_from room.id sid d.rooms))

unfoldable pub order : Text → Fields → Document → Handled Change
order rid body d = do
  room ← get_room d.rooms rid
  reject_unknown_fields body (text "ids" ∷ [])
  ids ← id_list body
  check_permutation ids (socket_ids room.sockets)
  sockets ← pick (λ s. s.id) room.sockets ids
  ok (
    arr (texts_json ids),
    with_rooms d (update_room rid (λ r. record r { sockets = sockets }) d.rooms),
  )

-- `body[key]`, or the value that the socket has.
unfoldable pub merged : Text → Fields → Value → Value
merged key body old = elim (get key body) [ none ↦ old | some v ↦ v ]

-- The room of the room_id in the body.
unfoldable pub named_room : List Room → Room → Value → Handled Room
named_room rooms room (str rid) = if rid == room.id then ok room else elim (find_room rooms rid) [
  | none ↦ err (invalid (text "no room with this id") (text "room_id"))
  | some target ↦ ok target
]
named_room rooms room _ = err (invalid (text "must be a string") (text "room_id"))

unfoldable pub target_room : List Room → Room → Fields → Handled Room
unfolding named_room
target_room rooms room body = elim (get (text "room_id") body) [
  | none ↦ ok room
  | some v ↦ named_room rooms room v
]

abbrev pub with_address : Address → Socket → Socket
with_address a s = record s { kind = a.kind; group = a.group; number = a.number }

-- The assignments of an edit: the name, the address, and no last_sent when the address changes.
unfoldable pub edited : Text → Address → Socket → Socket
edited name address s =
    let last : Option LastSent =
      if same_address (address_of s) address then s.last_sent else none in
    record (with_address address s) { name = name; last_sent = last }

-- `target is not room`
unfoldable pub is_move : Room → Room → Bool
is_move room target = not (target.id == room.id)

unfoldable pub place : Room → Room → Socket → List Room → List Room
unfolding is_move
place room target sock rooms =
    if is_move room target
    then append_to target.id sock (remove_from room.id sock.id rooms)
    else rooms

module _ (u : Unicode) where
  unfoldable pub create : Text → Fields → List Text → Document → Handled Change
  create rid body tokens d = do
    room ← get_room d.rooms rid
    reject_unknown_fields body socket_fields
    name ← clean_name u (get_or_null (text "name") body) (text "name")
    address ←
        check_socket_fields (get_or_null (text "type") body) (get_or_null (text "group") body)
          (get_or_null (text "number") body)
    check_socket_name u room name none
    id ← new_id (text "s_") (ids_of d.rooms) tokens
    let sock : Socket = record {
      id = id;
      name = name;
      kind = address.kind;
      group = address.group;
      number = address.number;
      last_sent = none;
    }
    let rooms = append_to rid sock d.rooms
    ok (reply room sock rooms, with_rooms d rooms)

  unfoldable pub merged_name : Option Value → Socket → Handled Text
  merged_name none sock = ok sock.name
  merged_name (some value) sock = clean_name u value (text "name")

  unfoldable pub check_name_if : Bool → Room → Text → Text → Handled (Unit {0})
  check_name_if needed target name sid =
      if needed then check_socket_name u target name (some sid) else ok tt

  unfoldable pub edit : Text → Fields → Document → Handled Change
  unfolding merged_name edited place check_name_if
  edit sid body d = do
    (room, sock) ← get_socket d.rooms sid
    reject_unknown_fields body edit_fields
    name ← merged_name (get (text "name") body) sock
    address ←
        check_socket_fields (merged (text "type") body (str (kind_name sock.kind)))
          (merged (text "group") body (int (pos sock.group)))
          (merged (text "number") body (int (pos sock.number)))
    target ← target_room d.rooms room body
    check_name_if (has (text "name") body || is_move room target) target name sid
    let sock' = edited name address sock
    let rooms = place room target sock' (update_socket sid (edited name address) d.rooms)
    ok (reply target sock' rooms, with_rooms d rooms)
