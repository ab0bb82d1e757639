-- ===== src/Model/View.antt =====
-- The record that a checked dict is. Each function reads the keys that the code behind the
-- store reads; `none` stands for a dict that the code could not read so.
use librsswitch.Base.{ℕ, List, [], ◌∷◌, Option, none, some, if◌then◌else◌}
use librsswitch.Base.Int.{pos}
use librsswitch.Base.Opt.{◌>>=◌}
use librsswitch.Base.Text.{Text, text, ◌==◌}
use librsswitch.Json.{Value, null, int, str, arr, obj, Items, nil, cons, Fields, get}
use librsswitch.Model.Types.{Kind, find_kind, State, on, off, LastSent, Socket, Room, Document}

-- What `of` makes of the value at the key.
unfoldable pub read : {A : Type 0} → Text → (Value → Option A) → Fields → Option A
read key of fields = get key fields >>= of

unfoldable pub text_of : Value → Option Text
text_of (str s) = some s
text_of _ = none

unfoldable pub number_of : Value → Option ℕ
number_of (int (pos n)) = some n
number_of _ = none

unfoldable pub kind_of : Value → Option Kind
kind_of (str s) = find_kind s
kind_of _ = none

unfoldable pub state_of : Value → Option State
state_of (str s) = if s == text "on" then some on else if s == text "off" then some off else none
state_of _ = none

unfoldable pub last_sent_of : Value → Option (Option LastSent)
last_sent_of null = some none
last_sent_of (obj fields) = do
  state ← read (text "state") state_of fields
  at ← read (text "at") text_of fields
  some (some (record { state = state; at = at }))
last_sent_of _ = none

unfoldable pub socket_of : Value → Option Socket
socket_of (obj fields) = do
  id ← read (text "id") text_of fields
  name ← read (text "name") text_of fields
  kind ← read (text "type") kind_of fields
  group ← read (text "group") number_of fields
  number ← read (text "number") number_of fields
  last_sent ← read (text "last_sent") last_sent_of fields
  some (record {
    id = id;
    name = name;
    kind = kind;
    group = group;
    number = number;
    last_sent = last_sent;
  })
socket_of _ = none

unfoldable pub sockets_of : Items → Option (List Socket)
sockets_of nil = some []
sockets_of (cons v vs) = do s ← socket_of v; ss ← sockets_of vs; some (s ∷ ss)

unfoldable pub socket_list_of : Value → Option (List Socket)
socket_list_of (arr vs) = sockets_of vs
socket_list_of _ = none

unfoldable pub room_of : Value → Option Room
room_of (obj fields) = do
  id ← read (text "id") text_of fields
  name ← read (text "name") text_of fields
  sockets ← read (text "sockets") socket_list_of fields
  some (record { id = id; name = name; sockets = sockets })
room_of _ = none

unfoldable pub rooms_of : Items → Option (List Room)
rooms_of nil = some []
rooms_of (cons v vs) = do r ← room_of v; rs ← rooms_of vs; some (r ∷ rs)

unfoldable pub room_list_of : Value → Option (List Room)
room_list_of (arr vs) = rooms_of vs
room_list_of _ = none

unfoldable pub document_of : Value → Option Document
document_of (obj fields) = do
  version ← read (text "version") number_of fields
  rooms ← read (text "rooms") room_list_of fields
  some (record { version = version; rooms = rooms })
document_of _ = none
