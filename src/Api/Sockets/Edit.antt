-- ===== src/Api/Sockets/Edit.antt =====
-- An edit of a socket: edit_socket of examples/web/rsswitch_web/api/sockets.py.
use mathlib.Core.List.{Nodup, Perm}
use mathlib.Core.List.Perm
use mathlib.Core.Path.{subst}
use librsswitch.Base.{
  ◌≡◌, refl, sym, ap, ◌∙◌, Bool-cases, Option-cases, List, ◌∷◌, some, inl, inr, All, arith,
}
use librsswitch.Base.Result.{ok, >>=-eq-ok}
use librsswitch.Base.Text.{Text, text, ◌==◌}
use librsswitch.Json.{Value, Fields, get}
use librsswitch.Json.{null, bool, int, float, str, arr, obj}
use librsswitch.Model.Types.{Socket, Room, Document}
use librsswitch.Model.Valid.{ids_of, IsValidSocket, IsValidRoom, IsValid}
use librsswitch.Store.Find.{find_room, find_socket, update_socket, remove_in}
use librsswitch.Store.Find.Laws.{id_of_find_socket, id_of_find_room, ids_of-update_socket}
use librsswitch.Store.Find.Ids.{
  find_room_of_find_socket, room_ids-Nodup, find_room-All, find_in-All,
}
use librsswitch.Store.Find.After.{
  found_after_update_room, found_after_update_socket, found_socket_after, update_socket-All,
}
use librsswitch.Store.Record.{Address}
use librsswitch.Validation.{Unicode}
use librsswitch.Api.Rooms.Valid.{ok_eq, document_eq}
use librsswitch.Api.Sockets.{remove_from, named_room, target_room, edited, is_move, place, edit}
use librsswitch.Api.Sockets.Valid.{
  InLimits, ids_of-append_to, append_to-All, ids_of-remove_from, remove_from-All, get_socket_found,
  check_socket_fields-InLimits,
}

module _ (name : Text) (a : Address) where
  edited-id : (s : Socket) → (edited name a s).id ≡ s.id
  unfolding edited
  edited-id s = refl

  edited-IsValid : InLimits a → (s : Socket) → IsValidSocket s → IsValidSocket (edited name a s)
  unfolding edited
  edited-IsValid la s h = record { id = h.id; group = la.0; number = la.1 }

named_room_found :
    (rs : List Room) (r q : Room) (v : Value)
    → find_room rs r.id ≡ some r
    → named_room rs r v ≡ ok q
    → find_room rs q.id ≡ some q
unfolding named_room
named_room_found rs r q (str rid) found h = elim (Bool-cases (rid == r.id)) [
  | inl e ↦ let same : r ≡ q = ground arith in subst (λ z. find_room rs z.id ≡ some z) same found
  | inr e ↦ elim (Option-cases (find_room rs rid)) [
    | inl e' ↦ absurd (ground arith)
    | inr (t, e') ↦
        let same : t ≡ q = ground arith in
        subst (λ z. find_room rs z.id ≡ some z) same
          (ap (find_room rs) (id_of_find_room rs rid t e') ∙ e')
  ]
]
named_room_found rs r q null found h = cc
named_room_found rs r q (bool b) found h = cc
named_room_found rs r q (int i) found h = cc
named_room_found rs r q (float x) found h = cc
named_room_found rs r q (arr vs) found h = cc
named_room_found rs r q (obj fs) found h = cc

target_room_found :
    (rs : List Room) (r q : Room) (body : Fields)
    → find_room rs r.id ≡ some r
    → target_room rs r body ≡ ok q
    → find_room rs q.id ≡ some q
unfolding target_room
target_room_found rs r q body found h = elim (Option-cases (get (text "room_id") body)) [
  | inl e ↦ let same : r ≡ q = ground arith in subst (λ z. find_room rs z.id ≡ some z) same found
  | inr (v, e) ↦ named_room_found rs r q v found (ground arith)
]

-- Moving the socket `s`, which is in the room with the id of `r`, keeps the ids.
place-ids :
    (rs : List Room) (r r' q q' : Room) (s : Socket)
    → Nodup (ids_of rs)
    → find_socket rs s.id ≡ some (r', s)
    → r'.id ≡ r.id
    → find_room rs q.id ≡ some q'
    → Perm (ids_of rs) (ids_of (place r q s rs))
unfolding place
place-ids rs r r' q q' s d found same target = elim (Bool-cases (is_move r q)) [
  | inl e ↦
      let out : Perm (ids_of rs) (s.id ∷ ids_of (remove_from r.id s.id rs)) =
        subst (λ z. Perm (ids_of rs) (s.id ∷ ids_of (remove_from z s.id rs))) same
          (ids_of-remove_from rs s.id r' s d found) in
      let (t, there) =
        found_after_update_room (λ z. record z { sockets = remove_in s.id z.sockets }) (λ z. refl)
          rs r.id q.id q' target in
      rw e (Perm.trans out (ids_of-append_to (remove_from r.id s.id rs) q.id t s there))
  | inr e ↦ rw e (Perm.refl (ids_of rs))
]

place-All :
    (rs : List Room) (r q : Room) (s : Socket)
    → IsValidSocket s
    → All IsValidRoom rs
    → All IsValidRoom (place r q s rs)
unfolding place
place-All rs r q s hs h = elim (Bool-cases (is_move r q)) [
  | inl e ↦
      rw e (append_to-All (remove_from r.id s.id rs) q.id s hs (remove_from-All rs r.id s.id h))
  | inr e ↦ rw e h
]

-- Editing a socket of a document with the invariant, with a move to another room or without, leaves a
-- document with the invariant and with the same ids of rooms and sockets: no socket is lost, and none
-- is there twice.
pub edit_socket-IsValid :
    (u : Unicode) (sid : Text) (body : Fields) (d d' : Document) (v : Value)
    → IsValid d
    → edit u sid body d ≡ ok (v, d')
    → IsValid d' × Perm (ids_of d.rooms) (ids_of d'.rooms)
unfolding edit
edit_socket-IsValid u sid body d d' v h e =
    let ((room, s), got, e1) = >>=-eq-ok _ _ e in
    let (_, _, e2) = >>=-eq-ok _ _ e1 in
    let (name, _, e3) = >>=-eq-ok _ _ e2 in
    let (a, checked, e4) = >>=-eq-ok _ _ e3 in
    let (target, targeted, e5) = >>=-eq-ok _ _ e4 in
    let (_, _, e6) = >>=-eq-ok _ _ e5 in
    let found = get_socket_found d.rooms sid room s got in
    let (in_rooms, in_room) =
      find_room_of_find_socket d.rooms sid room s (room_ids-Nodup d.rooms h.distinct) found in
    let there = target_room_found d.rooms room target body in_rooms targeted in
    let f = edited name a in
    let limits = check_socket_fields-InLimits _ _ _ a checked in
    let valid =
      find_in-All IsValidSocket room.sockets sid s
        (find_room-All IsValidRoom d.rooms room.id room h.rooms in_rooms).sockets in_room in
    let rs = update_socket sid f d.rooms in
    let (q', target') = found_after_update_socket f d.rooms sid target.id target there in
    let kept = ids_of-update_socket f (edited-id name a) d.rooms sid in
    let distinct : Nodup (ids_of rs) = subst Nodup (sym kept) h.distinct in
    let now = found_socket_after f (edited-id name a) d.rooms sid room s found in
    let own : (f s).id ≡ sid = edited-id name a s ∙ id_of_find_socket d.rooms sid room s found in
    let same_ids =
      place-ids rs room _ target q' (f s) distinct (ap (find_socket rs) own ∙ now) refl target' in
    subst (λ z. IsValid z × Perm (ids_of d.rooms) (ids_of z.rooms)) (document_eq (ok_eq e6))
      (
        record {
          version = h.version;
          rooms =
              place-All rs room target (f s) (edited-IsValid name a limits s valid)
                (update_socket-All f (edited-IsValid name a limits) d.rooms sid h.rooms);
          distinct = Perm.nodup same_ids distinct;
        },
        subst (λ z. Perm z (ids_of (place room target (f s) rs))) kept same_ids,
      )
