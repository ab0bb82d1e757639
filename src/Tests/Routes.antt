-- ===== src/Tests/Routes.antt =====
-- Runs of the functions of the routes.
use mathlib.Core.List.{Mem, Nodup-cons, Nodup-nil, Perm, not-mem-nil}
use librsswitch.Base.{◌≡◌, ◌⊎◌, ◌↔◌, refl, true, List, [], ◌∷◌}
use librsswitch.Base.Result.{ok, ◌>>=◌}
use librsswitch.Base.Text.{Text, text, ◌==◌, contains}
use librsswitch.Json.{Value, Fields, str, end, field, get}
use librsswitch.Errors.{reject_unknown_fields}
use librsswitch.Model.Types.{Room, Document}
use librsswitch.Model.Check.{matches_id_pattern, first_unknown}
use librsswitch.Model.Valid.{room_ids, ids_of}
use librsswitch.Model.Valid.{not-mem_of_contains}
use librsswitch.Store.Find.{find_room, update_room}
use librsswitch.Validation.{
  is_control, is_surrogate, is_invisible, lstrip, strip, check_characters, all_invisible, is_empty,
  check_name, clean_name, name_key,
}
use librsswitch.Validation.Names.{IsName, clean_name-ok_iff}
use librsswitch.Api.Common.{
  new_id, get_or_null, get_room, is_own, is_taken, check_room_name, set_of, all_in, is_permutation,
  check_permutation, by_id, pick,
}
use librsswitch.Api.Common.NewId.{new_id-fresh, room_prefix}
use librsswitch.Api.Rooms.{Change, new_name, create, edit, order}
use librsswitch.Api.Rooms.Order.{Ordered, order_mismatch, order-Ordered, order_decides}
use librsswitch.Api.Rooms.Names.{
  HasDistinctNames, create_room-HasDistinctNames, edit_room-HasDistinctNames,
}
use librsswitch.Tests.Data.{kitchen, hall, home, home-IsValid, ascii, token, token-IsToken}

-- {"name": "B"}
abbrev bath_body : Fields
bath_body = field (text "name") (str (b'B' ∷ [])) end

abbrev bath : Room
bath = record { id = b'r' ∷ b'_' ∷ token; name = b'B' ∷ []; sockets = [] }

abbrev with_bath : Document
with_bath = record { version = 1; rooms = kitchen ∷ hall ∷ bath ∷ [] }

bath_created : (v : Value) × (create ascii bath_body (token ∷ []) home ≡ ok (v, with_bath))
unfolding create clean_name check_name strip lstrip check_characters all_invisible is_empty
    check_room_name is_taken is_own name_key new_id get_or_null get text contains ◌==◌ ◌>>=◌
    is_control is_surrogate is_invisible
bath_created = (_, refl)

home-HasDistinctNames : HasDistinctNames ascii home
unfolding name_key contains ◌==◌
home-HasDistinctNames =
    Nodup-cons.1 (
      not-mem_of_contains (b'K' ∷ []) ((b'F' ∷ []) ∷ []) refl,
      Nodup-cons.1 (not-mem-nil, Nodup-nil),
    )

create_room-HasDistinctNames_example : HasDistinctNames ascii with_bath
create_room-HasDistinctNames_example =
    create_room-HasDistinctNames ascii bath_body (token ∷ []) home with_bath _ home-HasDistinctNames
      bath_created.1

abbrev renamed_home : Document
renamed_home = record { version = 1; rooms = kitchen ∷ (record hall { name = b'B' ∷ [] }) ∷ [] }

hall_renamed : (v : Value) × (edit ascii hall.id bath_body home ≡ ok (v, renamed_home))
unfolding edit new_name get_room find_room reject_unknown_fields first_unknown update_room
    clean_name check_name strip lstrip check_characters all_invisible is_empty check_room_name
    is_taken is_own name_key get_or_null get text contains ◌==◌ ◌>>=◌ is_control is_surrogate
    is_invisible
hall_renamed = (_, refl)

edit_room-HasDistinctNames_example : HasDistinctNames ascii renamed_home
edit_room-HasDistinctNames_example =
    edit_room-HasDistinctNames ascii hall.id bath_body home renamed_home _ home-IsValid
      home-HasDistinctNames hall_renamed.1

abbrev only_kitchen : Document
only_kitchen = record { version = 1; rooms = kitchen ∷ [] }

abbrev swapped_ids : List Text
swapped_ids = hall.id ∷ kitchen.id ∷ []

abbrev swapped : Document
swapped = record { version = 1; rooms = hall ∷ kitchen ∷ [] }

rooms_swapped : (v : Value) × (order swapped_ids home ≡ ok (v, swapped))
unfolding order check_permutation is_permutation set_of all_in pick by_id contains ◌==◌ ◌>>=◌
rooms_swapped = (_, refl)

order-Ordered_example : Ordered swapped_ids home swapped
order-Ordered_example = order-Ordered swapped_ids home swapped _ home-IsValid rooms_swapped.1

order_decides_example :
    (Perm swapped_ids (room_ids home.rooms) × (c : Change) × (order swapped_ids home ≡ ok c))
    ⊎ ((¬ Perm swapped_ids (room_ids home.rooms)) × (order swapped_ids home ≡ order_mismatch))
order_decides_example = order_decides swapped_ids home home-IsValid

new_id-fresh_example : (matches_id_pattern bath.id ≡ true) × (¬ Mem bath.id (ids_of home.rooms))
unfolding new_id contains text ◌==◌
new_id-fresh_example =
    new_id-fresh (text "r_") (ids_of home.rooms) (token ∷ []) bath.id room_prefix token-IsToken refl

clean_name-ok_iff_example :
    (clean_name ascii (str (b' ' ∷ b'B' ∷ b' ' ∷ [])) [] ≡ ok (b'B' ∷ []))
    ↔ ((strip ascii (ascii.nfc (b' ' ∷ b'B' ∷ b' ' ∷ [])) ≡ b'B' ∷ []) × IsName ascii (b'B' ∷ []))
clean_name-ok_iff_example = clean_name-ok_iff ascii (b' ' ∷ b'B' ∷ b' ' ∷ []) [] (b'B' ∷ [])
