-- ===== src/Model/Complete.antt =====
-- Every document with the invariant is accepted by `check_document`, and read back unchanged.
use mathlib.Core.List.{not-mem-nil}
use mathlib.Core.Option.{some-injective}
use mathlib.Core.Path.{subst}
use librsswitch.Base.{
  ℕ, suc, ◌<◌, ◌≡◌, refl, sym, ◌∙◌, ◌↔◌, true, false, List, [], ◌∷◌, Option, none, some, All, arith,
}
use librsswitch.Base.Int.{pos}
use librsswitch.Base.Result.{ok, ◌>>=◌}
use librsswitch.Base.Text.{Text, text, ◌==◌, contains}
use librsswitch.Json.{int, str, arr, obj, get, has}
use librsswitch.Model.Types.{
  format_version, Kind, State, rev_008345, pollin_2605, kind_name, find_kind, socket_types,
  in_range, address_problem, on, off, LastSent, Socket, Room, Document,
}
use librsswitch.Model.Check.{
  subscript, check_keys, first_unknown, require_keys, check_id, check_str, is_state,
  check_last_sent, check_type, check_address, check_socket, check_sockets, check_socket_list,
  check_room, check_rooms, check_room_list, is_version, check_document, matches_id_pattern,
  socket_keys, room_keys, document_keys,
}
use librsswitch.Model.View.{
  read, text_of, number_of, kind_of, state_of, last_sent_of, socket_of, sockets_of, socket_list_of,
  room_of, rooms_of, room_list_of, document_of,
}
use librsswitch.Model.Encode.{
  state_name, last_sent_value, socket_fields, socket_items, room_fields, room_items,
  document_fields, document_value,
}
use librsswitch.Model.Sound.{check_document-IsValid}
use librsswitch.Model.Valid.{
  socket_ids, ids_of, IsValidSocket, IsValidRoom, IsValid, push, Fresh, push-append, Fresh-split,
  Fresh-of_Nodup,
}

-- What a dict literal shows: its keys, and the value at each of them.
literal : Unit {0}
unfolding check_keys first_unknown require_keys contains has get subscript text ◌==◌
literal = tt

socket_keys-ok : (s : Socket) (path : Text) → check_keys (socket_fields s) socket_keys path ≡ ok tt
unfolding literal
socket_keys-ok s path = refl

kind_of-kind_name : (k : Kind) → kind_of (str (kind_name k)) ≡ some k
unfolding kind_of find_kind kind_name text ◌==◌
kind_of-kind_name rev_008345 = refl
kind_of-kind_name pollin_2605 = refl

check_type-kind_name : (k : Kind) (path : Text) → check_type (str (kind_name k)) path ≡ ok k
unfolding check_type find_kind kind_name text ◌==◌
check_type-kind_name rev_008345 path = refl
check_type-kind_name pollin_2605 path = refl

last_sent_fields-ok :
    (state : State) (at : Text) (path : Text)
    → let l : LastSent = record { state = state; at = at } in
      (check_last_sent (last_sent_value (some l)) path ≡ ok tt)
      × (last_sent_of (last_sent_value (some l)) ≡ some (some l))
unfolding check_last_sent last_sent_of last_sent_value state_name literal is_state state_of
    check_str text_of read ◌>>=◌
last_sent_fields-ok on at path = (refl, refl)
last_sent_fields-ok off at path = (refl, refl)

last_sent-ok :
    (l : Option LastSent) (path : Text)
    → (check_last_sent (last_sent_value l) path ≡ ok tt)
      × (last_sent_of (last_sent_value l) ≡ some l)
unfolding check_last_sent last_sent_of last_sent_value
last_sent-ok none path = (refl, refl)
last_sent-ok (some l) path = last_sent_fields-ok l.state l.at path

socket_reads :
    (s : Socket)
    → (subscript (text "id") (socket_fields s) ≡ ok (str s.id))
      × (subscript (text "name") (socket_fields s) ≡ ok (str s.name))
      × (subscript (text "type") (socket_fields s) ≡ ok (str (kind_name s.kind)))
      × (subscript (text "group") (socket_fields s) ≡ ok (int (pos s.group)))
      × (subscript (text "number") (socket_fields s) ≡ ok (int (pos s.number)))
      × (subscript (text "last_sent") (socket_fields s) ≡ ok (last_sent_value s.last_sent))
unfolding literal
socket_reads s = (refl, refl, refl, refl, refl, refl)

check_id-fresh :
    (id path : Text) (seen : List Text)
    → matches_id_pattern id ≡ true
    → contains id seen ≡ false
    → check_id (str id) path seen ≡ ok (id ∷ seen)
unfolding check_id
check_id-fresh id path seen matched new = ground arith

check_address-in_range :
    (k : Kind) (group number : ℕ) (path : Text)
    → group < (socket_types k).groups
    → number < (socket_types k).sockets
    → check_address k (int (pos group)) (int (pos number)) path ≡ ok tt
unfolding check_address address_problem in_range
check_address-in_range k group number path hg hn = ground arith

check_socket-socket_fields :
    (s : Socket) (path : Text) (seen : List Text)
    → IsValidSocket s
    → contains s.id seen ≡ false
    → check_socket (obj (socket_fields s)) path seen ≡ ok (s.id ∷ seen)
unfolding check_socket ◌>>=◌ check_str
check_socket-socket_fields s path seen h new =
    let (id, name, kind, group, number, last) = socket_reads s in
    rw (
      socket_keys-ok s path,
      id,
      check_id-fresh s.id _ seen h.id new,
      name,
      kind,
      check_type-kind_name s.kind path,
      group,
      number,
      check_address-in_range s.kind s.group s.number path h.group h.number,
      last,
      (last_sent-ok s.last_sent _).0,
    )

socket_of-socket_fields : (s : Socket) → socket_of (obj (socket_fields s)) ≡ some s
unfolding socket_of read literal text_of number_of
socket_of-socket_fields s = rw (kind_of-kind_name s.kind, (last_sent-ok s.last_sent []).1)

check_sockets-socket_items :
    (ss : List Socket) (rpath : Text) (j : ℕ) (seen : List Text)
    → All IsValidSocket ss
    → Fresh seen (socket_ids ss)
    → check_sockets (socket_items ss) rpath j seen ≡ ok (push seen (socket_ids ss))
unfolding check_sockets socket_items ◌>>=◌
check_sockets-socket_items [] rpath j seen h fresh = refl
check_sockets-socket_items (s ∷ ss) rpath j seen h fresh =
    rw (check_socket-socket_fields s _ seen h.0 fresh.0)
      (check_sockets-socket_items ss rpath (suc j) (s.id ∷ seen) h.1 fresh.1)

sockets_of-socket_items : (ss : List Socket) → sockets_of (socket_items ss) ≡ some ss
unfolding sockets_of socket_items
sockets_of-socket_items [] = refl
sockets_of-socket_items (s ∷ ss) = rw (socket_of-socket_fields s, sockets_of-socket_items ss)

room_keys-ok : (r : Room) (path : Text) → check_keys (room_fields r) room_keys path ≡ ok tt
unfolding literal
room_keys-ok r path = refl

room_reads :
    (r : Room)
    → (subscript (text "id") (room_fields r) ≡ ok (str r.id))
      × (subscript (text "name") (room_fields r) ≡ ok (str r.name))
      × (subscript (text "sockets") (room_fields r) ≡ ok (arr (socket_items r.sockets)))
unfolding literal
room_reads r = (refl, refl, refl)

check_room-room_fields :
    (r : Room) (path : Text) (seen : List Text)
    → IsValidRoom r
    → contains r.id seen ≡ false
    → Fresh (r.id ∷ seen) (socket_ids r.sockets)
    → check_room (obj (room_fields r)) path seen ≡ ok (push (r.id ∷ seen) (socket_ids r.sockets))
unfolding check_room ◌>>=◌ check_str check_socket_list
check_room-room_fields r path seen h new fresh =
    let (id, name, sockets) = room_reads r in
    rw (
      room_keys-ok r path,
      id,
      check_id-fresh r.id _ seen h.id new,
      name,
      sockets,
      check_sockets-socket_items r.sockets path 0 (r.id ∷ seen) h.sockets fresh,
    )

room_of-room_fields : (r : Room) → room_of (obj (room_fields r)) ≡ some r
unfolding room_of read literal text_of socket_list_of
room_of-room_fields r = rw (sockets_of-socket_items r.sockets)

check_rooms-room_items :
    (rs : List Room) (i : ℕ) (seen : List Text)
    → All IsValidRoom rs
    → Fresh seen (ids_of rs)
    → check_rooms (room_items rs) i seen ≡ ok (push seen (ids_of rs))
unfolding check_rooms room_items ◌>>=◌
check_rooms-room_items [] i seen h fresh = refl
check_rooms-room_items (r ∷ rs) i seen h fresh =
    let ids = socket_ids r.sockets in
    let (inner, rest) = Fresh-split (r.id ∷ seen) ids (ids_of rs) fresh.1 in
    rw
      (check_room-room_fields r _ seen h.0 fresh.0 inner, push-append (r.id ∷ seen) ids (ids_of rs))
      (check_rooms-room_items rs (suc i) (push (r.id ∷ seen) ids) h.1 rest)

rooms_of-room_items : (rs : List Room) → rooms_of (room_items rs) ≡ some rs
unfolding rooms_of room_items
rooms_of-room_items [] = refl
rooms_of-room_items (r ∷ rs) = rw (room_of-room_fields r, rooms_of-room_items rs)

document_keys-ok : (d : Document) → check_keys (document_fields d) document_keys [] ≡ ok tt
unfolding literal
document_keys-ok d = refl

document_reads :
    (d : Document)
    → (subscript (text "version") (document_fields d) ≡ ok (int (pos d.version)))
      × (subscript (text "rooms") (document_fields d) ≡ ok (arr (room_items d.rooms)))
unfolding literal
document_reads d = (refl, refl)

is_version-valid : (n : ℕ) → n ≡ format_version → is_version (int (pos n)) ≡ true
unfolding is_version
is_version-valid n h = ground arith

-- The dict of a document is read back as that document.
pub document_of-document_value : (d : Document) → document_of (document_value d) ≡ some d
unfolding document_of read literal number_of room_list_of
document_of-document_value d = rw (rooms_of-room_items d.rooms)

-- The dict of a document with the invariant passes `check_document`.
pub check_document-document_value :
    (d : Document) → IsValid d → check_document (document_value d) ≡ ok tt
unfolding check_document ◌>>=◌ check_room_list
check_document-document_value d h =
    let (version, rooms) = document_reads d in
    rw (
      document_keys-ok d,
      version,
      is_version-valid d.version h.version,
      rooms,
      check_rooms-room_items d.rooms 0 [] h.rooms
          (Fresh-of_Nodup [] (ids_of d.rooms) h.distinct (λ x m. not-mem-nil)),
    )

-- For the dict of a document, `check_document` returns exactly when the document has the invariant.
pub check_document-ok_iff_IsValid :
    (d : Document) → (check_document (document_value d) ≡ ok tt) ↔ IsValid d
check_document-ok_iff_IsValid d = (
  (λ h.
      let (d', e, valid) = check_document-IsValid (document_value d) h in
      subst IsValid (some-injective d' d (sym e ∙ document_of-document_value d)) valid),
  check_document-document_value d,
)
