-- ===== src/Tests/Plugs.antt =====
-- Runs of the functions of the socket routes.
use librsswitch.Base.{◌≡◌, refl, [], ◌∷◌, none}
use librsswitch.Base.Int.{pos}
use librsswitch.Base.Result.{ok, ◌>>=◌}
use librsswitch.Base.Text.{text, ◌==◌, contains}
use librsswitch.Json.{Value, Fields, int, str, arr, cons, nil, end, field, get, has}
use librsswitch.Errors.{reject_unknown_fields}
use librsswitch.Model.Types.{
  pollin_2605, Socket, Document, kind_name, find_kind, address_problem, in_range,
}
use librsswitch.Model.Check.{first_unknown}
use mathlib.Core.List.{Perm}
use librsswitch.Model.Valid.{ids_of, IsValid}
use librsswitch.Store.Find.{
  find_in, find_room, find_socket, or_later, holds, update_in, update_socket, update_room,
  remove_in,
}
use librsswitch.Store.Record.{same_address, same_kind}
use librsswitch.Validation.{
  is_control, is_surrogate, is_invisible, lstrip, strip, check_characters, all_invisible, is_empty,
  check_name, clean_name, name_key, check_kind, accepted_number, check_address_fields,
  check_socket_fields,
}
use librsswitch.Api.Common.{
  new_id, get_or_null, get_room, get_socket, is_own, is_taken, check_socket_name, texts_of,
  text_list_of, id_list, set_of, all_in, is_permutation, check_permutation, by_id, pick,
}
use librsswitch.Api.Sockets.{
  merged, named_room, target_room, edited, is_move, place, merged_name, check_name_if, create, edit,
  order,
}
use librsswitch.Api.Sockets.Edit.{edit_socket-IsValid}
use librsswitch.Tests.Data.{lamp, heater, kitchen, hall, home, home-IsValid, ascii, token}

-- {"name": "B", "type": "pollin-2605", "group": 31, "number": 0}, with the name of the type as text
abbrev fan_body : Fields
fan_body = field (text "name") (str (b'B' ∷ [])) (
    field (text "type") (str (kind_name pollin_2605))
      (field (text "group") (int (pos 31)) (field (text "number") (int (pos 0)) end)))

abbrev fan : Socket
fan = record {
  id = b's' ∷ b'_' ∷ token;
  name = b'B' ∷ [];
  kind = pollin_2605;
  group = 31;
  number = 0;
  last_sent = none;
}

abbrev with_fan : Document
with_fan = record { version = 1; rooms = kitchen ∷ (record hall { sockets = fan ∷ [] }) ∷ [] }

fan_created : (v : Value) × (create ascii hall.id fan_body (token ∷ []) home ≡ ok (v, with_fan))
unfolding create get_room find_room update_room reject_unknown_fields first_unknown clean_name
    check_name strip lstrip check_characters all_invisible is_empty check_socket_name is_taken
    is_own name_key new_id get_or_null get text contains ◌==◌ ◌>>=◌ is_control is_surrogate
    is_invisible check_kind find_kind check_address_fields check_socket_fields address_problem
    in_range accepted_number kind_name
fan_created = (_, refl)

-- The lamp moves to the hall.
abbrev move_body : Fields
move_body = field (text "room_id") (str hall.id) end

abbrev moved : Document
moved = record {
  version = 1;
  rooms = (record kitchen { sockets = heater ∷ [] }) ∷ (record hall { sockets = lamp ∷ [] }) ∷ [];
}

lamp_moved : (v : Value) × (edit ascii lamp.id move_body home ≡ ok (v, moved))
unfolding edit get_socket find_socket or_later find_in find_room update_room update_socket update_in
    holds remove_in reject_unknown_fields first_unknown merged merged_name named_room target_room
    edited is_move place check_name_if same_address same_kind check_socket_name is_taken is_own
    name_key get has text contains ◌==◌ ◌>>=◌ check_kind find_kind check_address_fields
    check_socket_fields address_problem in_range accepted_number kind_name
lamp_moved = (_, refl)

edit_socket-IsValid_example : IsValid moved × Perm (ids_of home.rooms) (ids_of moved.rooms)
edit_socket-IsValid_example =
    edit_socket-IsValid ascii lamp.id move_body home moved _ home-IsValid lamp_moved.1

abbrev without_lamp : Document
without_lamp = record {
  version = 1;
  rooms = (record kitchen { sockets = heater ∷ [] }) ∷ hall ∷ [];
}

-- {"ids": [heater, lamp]}
abbrev order_body : Fields
order_body = field (text "ids") (arr (cons (str heater.id) (cons (str lamp.id) nil))) end

abbrev turned : Document
turned = record {
  version = 1;
  rooms = (record kitchen { sockets = heater ∷ lamp ∷ [] }) ∷ hall ∷ [];
}

kitchen_turned : (v : Value) × (order kitchen.id order_body home ≡ ok (v, turned))
unfolding order get_room find_room update_room reject_unknown_fields first_unknown id_list
    text_list_of texts_of get_or_null get text contains check_permutation is_permutation set_of
    all_in pick by_id ◌==◌ ◌>>=◌
kitchen_turned = (_, refl)
