-- ===== src/Api/Sockets/Valid.antt =====
-- The socket routes keep the invariant of the document.
use mathlib.Core.List.{Nodup, Nodup-cons, Perm, perm_append_comm}
use mathlib.Core.List.Perm
use mathlib.Core.Path.{subst}
use librsswitch.Base.{
  ◌≡◌, refl, ap, true, List, [], ◌∷◌, ◌++◌, none, some, inl, inr, All, All-append, arith,
}
use librsswitch.Base.Result.{ok, >>=-eq-ok}
use librsswitch.Base.Text.{Text, text}
use librsswitch.Json.{Value, Fields}
use librsswitch.Model.Types.{Socket, Room, Document}
use librsswitch.Model.Valid.{socket_ids, ids_of, IsValidSocket, IsValidRoom, IsValid}
use librsswitch.Store.Find.{find_room, find_socket, remove_in}
use librsswitch.Store.Find.Ids.{
  ids_of-update_room-Perm, update_room-All, socket_ids-remove_in, remove_in-All,
  find_room_of_find_socket, room_ids-Nodup,
}
use librsswitch.Api.Common.{get_socket}
use librsswitch.Api.Rooms.Valid.{ok_eq, document_eq}
use librsswitch.Base.{◌<◌, ℕ, ltb→lt, Option-cases}
use librsswitch.Base.Int.{pos, negsuc}
use librsswitch.Json.{int, null, bool, float, str, arr, obj}
use librsswitch.Model.Types.{Kind, socket_types, in_range, address_problem}
use librsswitch.Store.Find.Ids.{find_room-All, socket_ids-Nodup}
use librsswitch.Store.Record.{Address}
use librsswitch.Validation.{Unicode, accepted_number, check_address_fields, check_socket_fields}
use librsswitch.Api.Common.{get_room}
use librsswitch.Api.Common.NewId.{IsToken, new_id-fresh, socket_prefix}
use librsswitch.Api.Common.Order.{is_permutation_iff_Perm, pick-Perm, pick-All}
use librsswitch.Api.Rooms.Order.{check_permutation_passed}
use librsswitch.Api.Sockets.{append_to, remove_from, create, delete, order}

socket_ids-append_one :
    (ss : List Socket) (s : Socket) → socket_ids (ss ++ s ∷ []) ≡ socket_ids ss ++ s.id ∷ []
socket_ids-append_one [] s = refl
socket_ids-append_one (t ∷ ss) s = ap (◌∷◌ t.id) (socket_ids-append_one ss s)

-- The ids after a socket has been appended to a room.
pub ids_of-append_to :
    (rs : List Room) (rid : Text) (r : Room) (s : Socket)
    → find_room rs rid ≡ some r
    → Perm (s.id ∷ ids_of rs) (ids_of (append_to rid s rs))
ids_of-append_to rs rid r s found =
    ids_of-update_room-Perm (λ q. record q { sockets = q.sockets ++ s ∷ [] }) (λ q. refl) rs rid r
      (s.id ∷ []) [] found
      (rw (socket_ids-append_one r.sockets s) (perm_append_comm (s.id ∷ []) (socket_ids r.sockets)))

pub append_to-All :
    (rs : List Room) (rid : Text) (s : Socket)
    → IsValidSocket s
    → All IsValidRoom rs
    → All IsValidRoom (append_to rid s rs)
append_to-All rs rid s hs h =
    update_room-All (λ q. record q { sockets = q.sockets ++ s ∷ [] }) rs rid
      (λ q hq. record {
        id = hq.id;
        sockets = All-append IsValidSocket q.sockets (s ∷ []) hq.sockets (hs, tt);
      })
      h

-- The ids after a socket has been taken out of its room.
pub ids_of-remove_from :
    (rs : List Room) (sid : Text) (r : Room) (s : Socket)
    → Nodup (ids_of rs)
    → find_socket rs sid ≡ some (r, s)
    → Perm (ids_of rs) (sid ∷ ids_of (remove_from r.id sid rs))
ids_of-remove_from rs sid r s d found =
    let (in_rooms, in_room) = find_room_of_find_socket rs sid r s (room_ids-Nodup rs d) found in
    ids_of-update_room-Perm (λ q. record q { sockets = remove_in sid q.sockets }) (λ q. refl) rs
      r.id r [] (sid ∷ []) in_rooms (socket_ids-remove_in r.sockets sid s in_room)

pub remove_from-All :
    (rs : List Room) (rid sid : Text)
    → All IsValidRoom rs
    → All IsValidRoom (remove_from rid sid rs)
remove_from-All rs rid sid h =
    update_room-All (λ q. record q { sockets = remove_in sid q.sockets }) rs rid
      (λ q hq. record { id = hq.id; sockets = remove_in-All q.sockets sid hq.sockets }) h

pub get_socket_found :
    (rs : List Room) (sid : Text) (r : Room) (s : Socket)
    → get_socket rs sid ≡ ok (r, s)
    → find_socket rs sid ≡ some (r, s)
unfolding get_socket
get_socket_found rs sid r s h = ground arith

-- Deleting a socket of a document with the invariant leaves a document with the invariant.
pub delete_socket-IsValid :
    (sid : Text) (d d' : Document) → IsValid d → delete sid d ≡ ok (tt, d') → IsValid d'
unfolding delete
delete_socket-IsValid sid d d' h e =
    let ((r, s), found, e1) = >>=-eq-ok _ _ e in
    let p =
      ids_of-remove_from d.rooms sid r s h.distinct (get_socket_found d.rooms sid r s found) in
    subst IsValid (document_eq (ok_eq e1)) (record {
      version = h.version;
      rooms = remove_from-All d.rooms r.id sid h.rooms;
      distinct = (Nodup-cons.0 (Perm.nodup p h.distinct)).1;
    })

pub get_room_found :
    (rs : List Room) (rid : Text) (r : Room) → get_room rs rid ≡ ok r → find_room rs rid ≡ some r
unfolding get_room
get_room_found rs rid r h = ground arith

-- An address that `check_socket_fields` returns lies within the limits of its type.
abbrev pub InLimits : Address → Type 0
InLimits a = (a.group < (socket_types a.kind).groups) × (a.number < (socket_types a.kind).sockets)

accepted_in_range : (v : Value) (limit : ℕ) → in_range v limit ≡ true → accepted_number v < limit
unfolding in_range accepted_number
accepted_in_range (int (pos n)) limit h = ltb→lt n limit h
accepted_in_range (int (negsuc n)) limit h = cc
accepted_in_range null limit h = cc
accepted_in_range (bool b) limit h = cc
accepted_in_range (float x) limit h = cc
accepted_in_range (str t) limit h = cc
accepted_in_range (arr vs) limit h = cc
accepted_in_range (obj fs) limit h = cc

no_problem :
    (kind : Kind) (g n : Value)
    → address_problem kind g n ≡ none
    → (in_range g (socket_types kind).groups ≡ true)
      × (in_range n (socket_types kind).sockets ≡ true)
unfolding address_problem
no_problem kind g n h = (ground arith, ground arith)

check_address_fields-InLimits :
    (kind : Kind) (g n : Value) (a : Address) → check_address_fields kind g n ≡ ok a → InLimits a
unfolding check_address_fields
check_address_fields-InLimits kind g n a h = elim (Option-cases (address_problem kind g n)) [
  | inl e ↦
      let (hg, hn) = no_problem kind g n e in
      let same : ◌≡◌ {A = Address}
          (record { kind = kind; group = accepted_number g; number = accepted_number n }) a =
        ground arith in
      subst InLimits same (accepted_in_range g _ hg, accepted_in_range n _ hn)
  | inr (x, e) ↦ absurd (ground arith)
]

pub check_socket_fields-InLimits :
    (t g n : Value) (a : Address) → check_socket_fields t g n ≡ ok a → InLimits a
unfolding check_socket_fields
check_socket_fields-InLimits t g n a h =
    let (kind, _, e) = >>=-eq-ok _ _ h in check_address_fields-InLimits kind g n a e

-- Adding a socket to a document with the invariant leaves one with the invariant, where the tokens
-- have the form that `token_hex` gives them.
pub create_socket-IsValid :
    (u : Unicode) (rid : Text) (body : Fields) (tokens : List Text) (d d' : Document) (v : Value)
    → All IsToken tokens
    → IsValid d
    → create u rid body tokens d ≡ ok (v, d')
    → IsValid d'
unfolding create
create_socket-IsValid u rid body tokens d d' v ht h e =
    let (room, found, e1) = >>=-eq-ok _ _ e in
    let (_, _, e2) = >>=-eq-ok _ _ e1 in
    let (name, _, e3) = >>=-eq-ok _ _ e2 in
    let (a, in_limits, e4) = >>=-eq-ok _ _ e3 in
    let (_, _, e5) = >>=-eq-ok _ _ e4 in
    let (id, made, e6) = >>=-eq-ok _ _ e5 in
    let (form, fresh) = new_id-fresh (text "s_") (ids_of d.rooms) tokens id socket_prefix ht made in
    let limits = check_socket_fields-InLimits _ _ _ a in_limits in
    let sock : Socket = record {
      id = id;
      name = name;
      kind = a.kind;
      group = a.group;
      number = a.number;
      last_sent = none;
    } in
    subst IsValid (document_eq (ok_eq e6)) (record {
      version = h.version;
      rooms =
          append_to-All d.rooms rid sock (record { id = form; group = limits.0; number = limits.1 })
            h.rooms;
      distinct =
          Perm.nodup
            (ids_of-append_to d.rooms rid room sock (get_room_found d.rooms rid room found))
            (Nodup-cons.1 (fresh, h.distinct));
    })

-- An accepted order of the sockets of a room, in a document with the invariant, leaves one with the
-- invariant.
pub order_sockets-IsValid :
    (rid : Text) (body : Fields) (d d' : Document) (v : Value)
    → IsValid d
    → order rid body d ≡ ok (v, d')
    → IsValid d'
unfolding order
order_sockets-IsValid rid body d d' v h e =
    let (room, found, e1) = >>=-eq-ok _ _ e in
    let (_, _, e2) = >>=-eq-ok _ _ e1 in
    let (ids, _, e3) = >>=-eq-ok _ _ e2 in
    let (_, passed, e4) = >>=-eq-ok _ _ e3 in
    let (ss, picked, e5) = >>=-eq-ok _ _ e4 in
    let in_rooms = get_room_found d.rooms rid room found in
    let valid = (find_room-All IsValidRoom d.rooms rid room h.rooms in_rooms).sockets in
    let unique = socket_ids-Nodup d.rooms rid room in_rooms h.distinct in
    let p =
      (is_permutation_iff_Perm ids (socket_ids room.sockets) unique).0
        (check_permutation_passed ids (socket_ids room.sockets) passed) in
    let moved = pick-Perm (λ s. s.id) room.sockets ids ss unique p picked in
    let f : Room → Room = λ r. record r { sockets = ss } in
    subst IsValid (document_eq (ok_eq e5)) (record {
      version = h.version;
      rooms =
          update_room-All f d.rooms rid
            (λ r hr. record {
              id = hr.id;
              sockets = pick-All (λ s. s.id) IsValidSocket room.sockets ids ss valid picked;
            })
            h.rooms;
      distinct =
          Perm.nodup
            (ids_of-update_room-Perm f (λ r. refl) d.rooms rid room [] [] in_rooms
              (Perm.map (λ s. s.id) (Perm.symm moved)))
            h.distinct;
    })
