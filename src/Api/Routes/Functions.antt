-- ===== src/Api/Routes/Functions.antt =====
-- What the functions that the routes give to the store can raise.
use librsswitch.Base.{◌≡◌, refl, Bool, true, false, List, [], ◌∷◌, Option, none, some}
use librsswitch.Base.Result.{ok, err}
use librsswitch.Base.Text.{Text}
use librsswitch.Jsonutil.{Bytes, bytes, Stdlib, ValueError, strict_loads}
use librsswitch.Json.{Value, null, bool, int, float, str, arr, obj, Fields}
use librsswitch.Errors.{
  http_error, failure, field_failure, is_blank, as_object, parsed_object, get_data, parse_body,
  json_body,
}
use librsswitch.Model.Types.{Room, Socket, Document}
use librsswitch.Model.Valid.{room_ids, socket_ids, ids_of}
use librsswitch.Validation.{
  Unicode, is_control, is_surrogate, check_characters, check_name, strip, clean_name,
}
use librsswitch.Api.Common.{room_conflict, socket_conflict, check_room_name, check_socket_name}
use librsswitch.Api.Routes.Raises.{
  Raises, >>=-Raises, raise_if-Raises, if-Raises, reject_unknown_fields-Raises, new_id-Raises,
  get_room-Raises, get_socket-Raises, id_list-Raises, check_permutation-Raises, pick-Raises,
  check_socket_fields-Raises, target_room-Raises,
}
use librsswitch.Base.Result.{Result}
use librsswitch.Api.Rooms
use librsswitch.Api.Sockets
use librsswitch.Api.Routes.{room_body, ids_body}

as_object-Raises : (v : Value) → Raises (as_object v)
unfolding as_object failure
as_object-Raises null = refl
as_object-Raises (bool b) = refl
as_object-Raises (int i) = refl
as_object-Raises (float x) = refl
as_object-Raises (str t) = refl
as_object-Raises (arr vs) = refl
as_object-Raises (obj fs) = tt

parsed_object-Raises : (r : Result ValueError Value) → Raises (parsed_object r)
unfolding parsed_object failure
parsed_object-Raises (ok v) = as_object-Raises v
parsed_object-Raises (err e) = refl

parse_body-Raises :
    (lib : Stdlib) (required : Bool) (raw : Bytes) → Raises (parse_body lib required raw)
unfolding parse_body failure
parse_body-Raises lib true raw =
    if-Raises (is_blank raw) _ _ refl (parsed_object-Raises (strict_loads lib (bytes raw)))
parse_body-Raises lib false raw =
    if-Raises (is_blank raw) _ _ tt (parsed_object-Raises (strict_loads lib (bytes raw)))

pub json_body-Raises :
    (lib : Stdlib) (required : Bool) (raw : Bytes)
    → lib.too_large.code ≡ 413
    → Raises (json_body lib required raw)
unfolding json_body get_data
json_body-Raises lib required raw limit =
    >>=-Raises (get_data lib raw) _ (raise_if-Raises _ (http_error lib.too_large) limit)
      (λ u. parse_body-Raises lib required raw)

pub room_body-Raises :
    (lib : Stdlib) (raw : Bytes) → lib.too_large.code ≡ 413 → Raises (room_body lib raw)
unfolding room_body
room_body-Raises lib raw limit =
    >>=-Raises (json_body lib true raw) _ (json_body-Raises lib true raw limit)
      (λ body. >>=-Raises _ _ (reject_unknown_fields-Raises body _) (λ u. tt))

pub ids_body-Raises :
    (lib : Stdlib) (raw : Bytes) → lib.too_large.code ≡ 413 → Raises (ids_body lib raw)
unfolding ids_body
ids_body-Raises lib raw limit =
    >>=-Raises (json_body lib true raw) _ (json_body-Raises lib true raw limit)
      (λ body. >>=-Raises _ _ (reject_unknown_fields-Raises body _) (λ u. id_list-Raises body))

pub delete_room-Raises : (rid : Text) (d : Document) → Raises (Rooms.delete rid d)
unfolding Rooms.delete failure
delete_room-Raises rid d =
    >>=-Raises _ _ (get_room-Raises d.rooms rid)
      (λ room. >>=-Raises _ _ (raise_if-Raises _ _ refl) (λ u. tt))

pub order_rooms-Raises : (ids : List Text) (d : Document) → Raises (Rooms.order ids d)
unfolding Rooms.order
order_rooms-Raises ids d =
    >>=-Raises _ _ (check_permutation-Raises ids (room_ids d.rooms))
      (λ u. >>=-Raises _ _ (pick-Raises (λ r. r.id) d.rooms ids) (λ rooms. tt))

pub delete_socket-Raises : (sid : Text) (d : Document) → Raises (Sockets.delete sid d)
unfolding Sockets.delete
delete_socket-Raises sid d = >>=-Raises _ _ (get_socket-Raises d.rooms sid) (λ found. tt)

pub order_sockets-Raises :
    (rid : Text) (body : Fields) (d : Document) → Raises (Sockets.order rid body d)
unfolding Sockets.order
order_sockets-Raises rid body d = >>=-Raises _ _ (get_room-Raises d.rooms rid) (λ room.
    >>=-Raises _ _ (reject_unknown_fields-Raises body _) (λ u.
      >>=-Raises _ _ (id_list-Raises body) (λ ids.
        >>=-Raises _ _ (check_permutation-Raises ids (socket_ids room.sockets))
          (λ w. >>=-Raises _ _ (pick-Raises (λ s. s.id) room.sockets ids) (λ ss. tt)))))

pub read_room-Raises : (d : Document) (rid : Text) → Raises (Rooms.read_room d rid)
unfolding Rooms.read_room
read_room-Raises d rid = >>=-Raises _ _ (get_room-Raises d.rooms rid) (λ room. tt)

pub read_socket-Raises : (d : Document) (sid : Text) → Raises (Sockets.read_socket d sid)
unfolding Sockets.read_socket
read_socket-Raises d sid = >>=-Raises _ _ (get_socket-Raises d.rooms sid) (λ found. tt)

module _ (u : Unicode) where
  check_characters-Raises : (name field : Text) → Raises (check_characters u name field)
  unfolding check_characters field_failure
  check_characters-Raises [] field = tt
  check_characters-Raises (c ∷ s) field =
      if-Raises (is_control (u.category c)) _ _ refl
        (if-Raises (is_surrogate (u.category c)) _ _ refl (check_characters-Raises s field))

  check_name-Raises : (name field : Text) → Raises (check_name u name field)
  unfolding check_name field_failure
  check_name-Raises name field = >>=-Raises _ _ (raise_if-Raises _ _ refl) (λ a.
      >>=-Raises _ _ (raise_if-Raises _ _ refl) (λ b.
        >>=-Raises _ _ (check_characters-Raises name field)
          (λ c. >>=-Raises _ _ (raise_if-Raises _ _ refl) (λ e. tt))))

  clean_name-Raises : (v : Value) (field : Text) → Raises (clean_name u v field)
  unfolding clean_name field_failure
  clean_name-Raises null field = refl
  clean_name-Raises (bool b) field = refl
  clean_name-Raises (int i) field = refl
  clean_name-Raises (float x) field = refl
  clean_name-Raises (str t) field = check_name-Raises (strip u (u.nfc t)) field
  clean_name-Raises (arr vs) field = refl
  clean_name-Raises (obj fs) field = refl

  check_room_name-Raises :
      (rooms : List Room) (name : Text) (own : Option Text)
      → Raises (check_room_name u rooms name own)
  unfolding check_room_name room_conflict field_failure
  check_room_name-Raises rooms name own = raise_if-Raises _ _ refl

  check_socket_name-Raises :
      (room : Room) (name : Text) (own : Option Text) → Raises (check_socket_name u room name own)
  unfolding check_socket_name socket_conflict field_failure
  check_socket_name-Raises room name own = raise_if-Raises _ _ refl

  pub create_room-Raises :
      (body : Fields) (tokens : List Text) (d : Document) → Raises (Rooms.create u body tokens d)
  unfolding Rooms.create
  create_room-Raises body tokens d = >>=-Raises _ _ (clean_name-Raises _ _) (λ name.
      >>=-Raises _ _ (check_room_name-Raises d.rooms name none)
        (λ a. >>=-Raises _ _ (new_id-Raises _ (ids_of d.rooms) tokens) (λ id. tt)))

  new_name-Raises :
      (o : Option Value) (room : Room) (d : Document) → Raises (Rooms.new_name u o room d)
  unfolding Rooms.new_name
  new_name-Raises none room d = tt
  new_name-Raises (some v) room d =
      >>=-Raises _ _ (clean_name-Raises v _)
        (λ name. >>=-Raises _ _ (check_room_name-Raises d.rooms name _) (λ a. tt))

  pub edit_room-Raises :
      (rid : Text) (body : Fields) (d : Document) → Raises (Rooms.edit u rid body d)
  unfolding Rooms.edit
  edit_room-Raises rid body d = >>=-Raises _ _ (get_room-Raises d.rooms rid) (λ room.
      >>=-Raises _ _ (reject_unknown_fields-Raises body _)
        (λ a. >>=-Raises _ _ (new_name-Raises _ room d) (λ name. tt)))

  pub create_socket-Raises :
      (rid : Text) (body : Fields) (tokens : List Text) (d : Document)
      → Raises (Sockets.create u rid body tokens d)
  unfolding Sockets.create
  create_socket-Raises rid body tokens d = >>=-Raises _ _ (get_room-Raises d.rooms rid) (λ room.
      >>=-Raises _ _ (reject_unknown_fields-Raises body _) (λ a.
        >>=-Raises _ _ (clean_name-Raises _ _) (λ name.
          >>=-Raises _ _ (check_socket_fields-Raises _ _ _) (λ address.
            >>=-Raises _ _ (check_socket_name-Raises room name none)
              (λ b. >>=-Raises _ _ (new_id-Raises _ (ids_of d.rooms) tokens) (λ id. tt))))))

  merged_name-Raises : (o : Option Value) (s : Socket) → Raises (Sockets.merged_name u o s)
  unfolding Sockets.merged_name
  merged_name-Raises none s = tt
  merged_name-Raises (some v) s = clean_name-Raises v _

  check_name_if-Raises :
      (needed : Bool) (room : Room) (name sid : Text)
      → Raises (Sockets.check_name_if u needed room name sid)
  unfolding Sockets.check_name_if
  check_name_if-Raises true room name sid = check_socket_name-Raises room name (some sid)
  check_name_if-Raises false room name sid = tt

  pub edit_socket-Raises :
      (sid : Text) (body : Fields) (d : Document) → Raises (Sockets.edit u sid body d)
  unfolding Sockets.edit
  edit_socket-Raises sid body d = >>=-Raises _ _ (get_socket-Raises d.rooms sid) (λ found.
      >>=-Raises _ _ (reject_unknown_fields-Raises body _) (λ a.
        >>=-Raises _ _ (merged_name-Raises _ found.1) (λ name.
          >>=-Raises _ _ (check_socket_fields-Raises _ _ _) (λ address.
            >>=-Raises _ _ (target_room-Raises d.rooms found.0 body)
              (λ target. >>=-Raises _ _ (check_name_if-Raises _ target name sid) (λ b. tt))))))
