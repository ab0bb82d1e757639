-- ===== src/Model/Encode.antt =====
-- The dict that a record is. `json.dumps` writes this dict; its keys stand in the order in
-- which the code builds them.
use librsswitch.Base.{List, [], ◌∷◌, Option, none, some}
use librsswitch.Base.Int.{pos}
use librsswitch.Base.Text.{Text, text}
use librsswitch.Json.{Value, null, int, str, arr, obj, Items, nil, cons, Fields, end, field}
use librsswitch.Model.Types.{State, on, off, LastSent, Socket, Room, Document, kind_name}

unfoldable pub state_name : State → Text
state_name on = text "on"
state_name off = text "off"

abbrev pub last_sent_fields : LastSent → Fields
last_sent_fields l =
    field (text "state") (str (state_name l.state)) (field (text "at") (str l.at) end)

unfoldable pub last_sent_value : Option LastSent → Value
last_sent_value none = null
last_sent_value (some l) = obj (last_sent_fields l)

abbrev pub socket_fields : Socket → Fields
socket_fields s = field (text "id") (str s.id) (
    field (text "name") (str s.name) (
      field (text "type") (str (kind_name s.kind)) (
        field (text "group") (int (pos s.group)) (
          field (text "number") (int (pos s.number))
            (field (text "last_sent") (last_sent_value s.last_sent) end)))))

unfoldable pub socket_items : List Socket → Items
socket_items [] = nil
socket_items (s ∷ ss) = cons (obj (socket_fields s)) (socket_items ss)

abbrev pub room_fields : Room → Fields
room_fields r =
    field (text "id") (str r.id)
      (field (text "name") (str r.name) (field (text "sockets") (arr (socket_items r.sockets)) end))

unfoldable pub room_items : List Room → Items
room_items [] = nil
room_items (r ∷ rs) = cons (obj (room_fields r)) (room_items rs)

abbrev pub document_fields : Document → Fields
document_fields d =
    field (text "version") (int (pos d.version))
      (field (text "rooms") (arr (room_items d.rooms)) end)

abbrev pub document_value : Document → Value
document_value d = obj (document_fields d)
