-- ===== src/Api/Rooms.antt =====
-- The room routes: examples/web/rsswitch_web/api/rooms.py. `create`, `edit`, `delete` and `order`
-- are the functions that the routes give to `Store.mutate`.
pub mod Valid
pub mod Names
pub mod Order
use librsswitch.Base.{
  Bool, true, false, not, List, [], ◌∷◌, ◌++◌, Option, none, some, if◌then◌else◌,
}
use librsswitch.Base.Result.{Result, ok, err, ◌>>=◌, ◌>>◌, raise_if}
use librsswitch.Base.Text.{Text, text, ◌==◌}
use librsswitch.Json.{Value, arr, obj, null, Fields, end, field, get}
use librsswitch.Errors.{Handled, failure, reject_unknown_fields}
use librsswitch.Model.Types.{Room, Document}
use librsswitch.Model.Valid.{room_ids, ids_of}
use librsswitch.Store.Find.{update_room}
use librsswitch.Validation.{Unicode, clean_name}
use librsswitch.Api.Json.{room_json, tree_json, texts_json}
use librsswitch.Api.Common.{
  new_id, get_or_null, get_room, check_room_name, id_list, check_permutation, pick,
}

-- The answer and the document after the function.
abbrev pub Change : Type 0
Change = Value × Document

abbrev pub with_rooms : Document → List Room → Document
with_rooms d rooms = record d { rooms = rooms }

unfoldable pub list_rooms : Document → Value
list_rooms d = tree_json d.rooms

unfoldable pub read_room : Document → Text → Handled Value
read_room d rid = do
  room ← get_room d.rooms rid
  ok (obj (field (text "room") (room_json room) end))

-- `data["rooms"].remove(room)`: the first room that equals `room`, which `get_room` returned.
unfoldable pub remove_room : Text → List Room → List Room
remove_room rid [] = []
remove_room rid (r ∷ rs) = if r.id == rid then rs else r ∷ remove_room rid rs

unfoldable pub has_sockets : Room → Bool
has_sockets room = elim room.sockets [ [] ↦ false | s ∷ ss ↦ true ]

unfoldable pub delete : Text → Document → Handled ((Unit {0}) × Document)
unfolding has_sockets
delete rid d = do
  room ← get_room d.rooms rid
  raise_if (has_sockets room) (
      failure 409 (text "room_not_empty")
        (text "the room still contains sockets; move or delete them first"))
  ok (tt, with_rooms d (remove_room rid d.rooms))

unfoldable pub order : List Text → Document → Handled Change
order ids d = do
  check_permutation ids (room_ids d.rooms)
  rooms ← pick (λ r. r.id) d.rooms ids
  ok (arr (texts_json ids), with_rooms d rooms)

module _ (u : Unicode) where
  unfoldable pub create : Fields → List Text → Document → Handled Change
  create body tokens d = do
    name ← clean_name u (get_or_null (text "name") body) (text "name")
    check_room_name u d.rooms name none
    id ← new_id (text "r_") (ids_of d.rooms) tokens
    let room : Room = record { id = id; name = name; sockets = [] }
    ok (room_json room, with_rooms d (d.rooms ++ room ∷ []))

  -- The name that the body gives a room, with its checks, or the name that it has.
  unfoldable pub new_name : Option Value → Room → Document → Handled Text
  new_name none room d = ok room.name
  new_name (some value) room d = do
    name ← clean_name u value (text "name")
    check_room_name u d.rooms name (some room.id)
    ok name

  unfoldable pub edit : Text → Fields → Document → Handled Change
  unfolding new_name
  edit rid body d = do
    room ← get_room d.rooms rid
    reject_unknown_fields body (text "name" ∷ [])
    name ← new_name (get (text "name") body) room d
    let changed : Room = record room { name = name }
    ok (room_json changed, with_rooms d (update_room rid (λ r. record r { name = name }) d.rooms))
