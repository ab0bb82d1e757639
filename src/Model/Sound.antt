-- ===== src/Model/Sound.antt =====
-- A document that `check_document` accepts is a record with the invariant.
mod Parts
use mathlib.Core.List.{Nodup}
use mathlib.Core.Path.{subst}
use librsswitch.Base.{
  ℕ, ◌≡◌, ◌∙◌, sym, ap, refl, true, false, List, [], ◌∷◌, ◌++◌, Option, none, some, map, All, arith,
  suc,
}
use librsswitch.Base.Result.{ok, ◌>>=◌, ◌>>◌, >>=-eq-ok}
use librsswitch.Base.Text.{Text, text, contains, decimal}
use librsswitch.Json.{Value, arr, obj, Items, nil, cons, Fields}
use librsswitch.Model.Types.{Kind, format_version, LastSent, Socket, Room, Document}
use librsswitch.Model.Check.{
  Checked, check_socket, check_sockets, check_socket_list, check_room, check_rooms, check_room_list,
  check_document,
}
use librsswitch.Model.View.{
  read, text_of, number_of, kind_of, last_sent_of, socket_of, sockets_of, socket_list_of, room_of,
  rooms_of, room_list_of, document_of,
}
use librsswitch.Model.Valid.{
  socket_ids, ids_of, IsValidSocket, IsValidRoom, IsValid, push, Fresh, push-append, Fresh-append,
  Nodup-of_Fresh,
}
use Parts.{
  ok_injective, read_of_subscript, check_id-ok, check_str-ok, check_type-ok, in_range-ok,
  check_address-ok, check_last_sent-ok, is_version-ok, raise_if-ok,
}

socket_of-fields :
    (fields : Fields) {id name : Text} {kind : Kind} {group number : ℕ} {last : Option LastSent}
    → read (text "id") text_of fields ≡ some id
    → read (text "name") text_of fields ≡ some name
    → read (text "type") kind_of fields ≡ some kind
    → read (text "group") number_of fields ≡ some group
    → read (text "number") number_of fields ≡ some number
    → read (text "last_sent") last_sent_of fields ≡ some last
    → socket_of (obj fields)
      ≡ some (record {
        id = id;
        name = name;
        kind = kind;
        group = group;
        number = number;
        last_sent = last;
      })
unfolding socket_of
socket_of-fields fields e1 e2 e3 e4 e5 e6 = rw (e1, e2, e3, e4, e5, e6)

check_socket-ok :
    (v : Value) (path : Text) (seen : List Text) {seen' : List Text}
    → check_socket v path seen ≡ ok seen'
    → (s : Socket) × (socket_of v ≡ some s)
      × (seen' ≡ s.id ∷ seen)
      × (contains s.id seen ≡ false)
      × IsValidSocket s
unfolding check_socket
check_socket-ok (obj fields) path seen {seen'} h =
    let (_, _, h1) = >>=-eq-ok _ _ h in
    let (v1, e1, h2) = >>=-eq-ok _ _ h1 in
    let (new, c1, h3) = >>=-eq-ok _ _ h2 in
    let (v2, e2, h4) = >>=-eq-ok _ _ h3 in
    let (_, c2, h5) = >>=-eq-ok _ _ h4 in
    let (v3, e3, h6) = >>=-eq-ok _ _ h5 in
    let (kind, c3, h7) = >>=-eq-ok _ _ h6 in
    let (v4, e4, h8) = >>=-eq-ok _ _ h7 in
    let (v5, e5, h9) = >>=-eq-ok _ _ h8 in
    let (_, c5, h10) = >>=-eq-ok _ _ h9 in
    let (v6, e6, h11) = >>=-eq-ok _ _ h10 in
    let (_, c6, h12) = >>=-eq-ok _ _ h11 in
    let (id, t1, grown, new_id, matched) = check_id-ok v1 _ seen c1 in
    let (name, t2) = check_str-ok v2 _ c2 in
    let (in_group, in_number) = check_address-ok kind v4 v5 _ c5 in
    let (group, t4, below_group) = in_range-ok v4 _ in_group in
    let (number, t5, below_number) = in_range-ok v5 _ in_number in
    let (last, t6) = check_last_sent-ok v6 _ c6 in
    let same : seen' ≡ new = ok_injective h12 in
    (
      record {
        id = id;
        name = name;
        kind = kind;
        group = group;
        number = number;
        last_sent = last;
      },
      socket_of-fields fields (read_of_subscript _ _ _ e1 t1) (read_of_subscript _ _ _ e2 t2)
          (read_of_subscript _ _ _ e3 (check_type-ok v3 _ kind c3)) (read_of_subscript _ _ _ e4 t4)
          (read_of_subscript _ _ _ e5 t5) (read_of_subscript _ _ _ e6 t6),
      same ∙ grown,
      new_id,
      record { id = matched; group = below_group; number = below_number },
    )
check_socket-ok _ path seen h = cc

-- The sockets that a loop has accepted, and the set after it.
record Accepted (seen seen' : List Text) (ss : List Socket) : Type 0 where
  grown : seen' ≡ push seen (socket_ids ss)
  fresh : Fresh seen (socket_ids ss)
  valid : All IsValidSocket ss

check_sockets-ok :
    (vs : Items) (rpath : Text) (j : ℕ) (seen : List Text) {seen' : List Text}
    → check_sockets vs rpath j seen ≡ ok seen'
    → (ss : List Socket) × (sockets_of vs ≡ some ss) × Accepted seen seen' ss
unfolding check_sockets sockets_of
check_sockets-ok nil rpath j seen h =
    ([], refl, record { grown = ok_injective h; fresh = tt; valid = tt })
check_sockets-ok (cons v vs) rpath j seen h =
    let (new, c, h1) = >>=-eq-ok _ _ h in
    let (s, e, grown, fresh, valid) = check_socket-ok v _ seen c in
    let (ss, es, rest) = check_sockets-ok vs rpath (suc j) new h1 in
    (
      s ∷ ss,
      rw (e, es),
      record {
        grown = rest.grown ∙ ap (λ z. push z (socket_ids ss)) grown;
        fresh = (fresh, subst (λ z. Fresh z (socket_ids ss)) grown rest.fresh);
        valid = (valid, rest.valid);
      },
    )

check_socket_list-ok :
    (v : Value) (rpath : Text) (seen : List Text) {seen' : List Text}
    → check_socket_list v rpath seen ≡ ok seen'
    → (ss : List Socket) × (socket_list_of v ≡ some ss) × Accepted seen seen' ss
unfolding check_socket_list socket_list_of
check_socket_list-ok (arr vs) rpath seen h = check_sockets-ok vs rpath 0 seen h
check_socket_list-ok _ rpath seen h = cc

room_of-fields :
    (fields : Fields) {id name : Text} {sockets : List Socket}
    → read (text "id") text_of fields ≡ some id
    → read (text "name") text_of fields ≡ some name
    → read (text "sockets") socket_list_of fields ≡ some sockets
    → room_of (obj fields) ≡ some (record { id = id; name = name; sockets = sockets })
unfolding room_of
room_of-fields fields e1 e2 e3 = rw (e1, e2, e3)

record AcceptedRooms (seen seen' : List Text) (rs : List Room) : Type 0 where
  grown : seen' ≡ push seen (ids_of rs)
  fresh : Fresh seen (ids_of rs)
  valid : All IsValidRoom rs

check_room-ok :
    (v : Value) (rpath : Text) (seen : List Text) {seen' : List Text}
    → check_room v rpath seen ≡ ok seen'
    → (r : Room) × (room_of v ≡ some r)
      × (contains r.id seen ≡ false)
      × IsValidRoom r
      × Accepted (r.id ∷ seen) seen' r.sockets
unfolding check_room
check_room-ok (obj fields) rpath seen {seen'} h =
    let (_, _, h1) = >>=-eq-ok _ _ h in
    let (v1, e1, h2) = >>=-eq-ok _ _ h1 in
    let (new, c1, h3) = >>=-eq-ok _ _ h2 in
    let (v2, e2, h4) = >>=-eq-ok _ _ h3 in
    let (_, c2, h5) = >>=-eq-ok _ _ h4 in
    let (v3, e3, c3) = >>=-eq-ok _ _ h5 in
    let (id, t1, grown, new_id, matched) = check_id-ok v1 _ seen c1 in
    let (name, t2) = check_str-ok v2 _ c2 in
    let (ss, t3, accepted) = check_socket_list-ok v3 _ new c3 in
    (
      record { id = id; name = name; sockets = ss },
      room_of-fields fields (read_of_subscript _ _ _ e1 t1) (read_of_subscript _ _ _ e2 t2)
          (read_of_subscript _ _ _ e3 t3),
      new_id,
      record { id = matched; sockets = accepted.valid },
      subst (λ z. Accepted z seen' ss) grown accepted,
    )
check_room-ok _ rpath seen h = cc

check_rooms-ok :
    (vs : Items) (i : ℕ) (seen : List Text) {seen' : List Text}
    → check_rooms vs i seen ≡ ok seen'
    → (rs : List Room) × (rooms_of vs ≡ some rs) × AcceptedRooms seen seen' rs
unfolding check_rooms rooms_of
check_rooms-ok nil i seen h = ([], refl, record { grown = ok_injective h; fresh = tt; valid = tt })
check_rooms-ok (cons v vs) i seen h =
    let (new, c, h1) = >>=-eq-ok _ _ h in
    let (r, e, fresh, valid, inner) = check_room-ok v _ seen c in
    let (rs, es, rest) = check_rooms-ok vs (suc i) new h1 in
    let ids = socket_ids r.sockets in
    (
      r ∷ rs,
      rw (e, es),
      record {
        grown =
            rest.grown
            ∙ ap (λ z. push z (ids_of rs)) inner.grown
            ∙ sym (push-append (r.id ∷ seen) ids (ids_of rs));
        fresh = (
          fresh,
          Fresh-append (r.id ∷ seen) ids (ids_of rs) inner.fresh
              (subst (λ z. Fresh z (ids_of rs)) inner.grown rest.fresh),
        );
        valid = (valid, rest.valid);
      },
    )

document_of-fields :
    (fields : Fields) {version : ℕ} {rooms : List Room}
    → read (text "version") number_of fields ≡ some version
    → read (text "rooms") room_list_of fields ≡ some rooms
    → document_of (obj fields) ≡ some (record { version = version; rooms = rooms })
unfolding document_of
document_of-fields fields e1 e2 = rw (e1, e2)

check_room_list-ok :
    (v : Value)
    → check_room_list v ≡ ok tt
    → (rs : List Room) × (room_list_of v ≡ some rs) × All IsValidRoom rs × Nodup (ids_of rs)
unfolding check_room_list room_list_of
check_room_list-ok (arr vs) h =
    let (seen', c, _) = >>=-eq-ok _ _ h in
    let (rs, e, accepted) = check_rooms-ok vs 0 [] c in
    (rs, e, accepted.valid, Nodup-of_Fresh [] (ids_of rs) accepted.fresh)
check_room_list-ok _ h = cc

-- A value that `check_document` lets through can be read as a document, by the keys that the code
-- uses, and that document has the version of this format, well-formed ids that are all different,
-- and addresses within the limits of their types.
pub check_document-IsValid :
    (v : Value) → check_document v ≡ ok tt → (d : Document) × (document_of v ≡ some d) × IsValid d
unfolding check_document
check_document-IsValid (obj fields) h =
    let (_, _, h1) = >>=-eq-ok _ _ h in
    let (v1, e1, h2) = >>=-eq-ok _ _ h1 in
    let (_, c1, h3) = >>=-eq-ok _ _ h2 in
    let (v2, e2, c2) = >>=-eq-ok _ _ h3 in
    let (rs, t2, valid, distinct) = check_room_list-ok v2 c2 in
    (
      record { version = format_version; rooms = rs },
      document_of-fields fields (read_of_subscript _ _ _ e1 (is_version-ok v1 (raise_if-ok _ _ c1)))
          (read_of_subscript _ _ _ e2 t2),
      record { version = refl; rooms = valid; distinct = distinct },
    )
check_document-IsValid _ h = cc
