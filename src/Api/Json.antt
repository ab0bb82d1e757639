-- ===== src/Api/Json.antt =====
-- Rooms and sockets as the API shows them: `socket_json`, `room_json` and `tree_json` of
-- examples/web/rsswitch_web/store.py.
use librsswitch.Base.{List, [], ◌∷◌}
use librsswitch.Base.Int.{pos}
use librsswitch.Base.Text.{Text, text}
use librsswitch.Json.{Value, int, str, arr, obj, Items, nil, cons, end, field}
use librsswitch.Model.Types.{Socket, Room, kind_name}
use librsswitch.Model.Encode.{last_sent_value}

unfoldable pub socket_json : Room → Socket → Value
socket_json room sock = obj (
    field (text "id") (str sock.id) (
      field (text "room_id") (str room.id) (
        field (text "name") (str sock.name) (
          field (text "type") (str (kind_name sock.kind)) (
            field (text "group") (int (pos sock.group)) (
              field (text "number") (int (pos sock.number))
                (field (text "last_sent") (last_sent_value sock.last_sent) end)))))))

unfoldable pub sockets_json : Room → List Socket → Items
unfolding socket_json
sockets_json room [] = nil
sockets_json room (s ∷ ss) = cons (socket_json room s) (sockets_json room ss)

unfoldable pub room_json : Room → Value
unfolding sockets_json
room_json room = obj (
    field (text "id") (str room.id) (
      field (text "name") (str room.name)
        (field (text "sockets") (arr (sockets_json room room.sockets)) end)))

unfoldable pub rooms_json : List Room → Items
unfolding room_json
rooms_json [] = nil
rooms_json (r ∷ rs) = cons (room_json r) (rooms_json rs)

unfoldable pub tree_json : List Room → Value
unfolding rooms_json
tree_json rooms = obj (field (text "rooms") (arr (rooms_json rooms)) end)

unfoldable pub texts_json : List Text → Items
texts_json [] = nil
texts_json (t ∷ ts) = cons (str t) (texts_json ts)
