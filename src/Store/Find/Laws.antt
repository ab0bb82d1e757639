-- ===== src/Store/Find/Laws.antt =====
-- What the lookups find after an assignment.
use librsswitch.Base.{
  ◌≡◌, refl, true, false, Bool-cases, List, [], ◌∷◌, Option, none, some, inl, inr, if◌then◌else◌,
  arith,
}
use mathlib.Core.Option
use librsswitch.Base.Text.{Text, ◌==◌, eq_iff}
use librsswitch.Model.Types.{Socket, Room}
use librsswitch.Model.Valid.{socket_ids, ids_of}
use librsswitch.Store.Find.{find_in, find_socket, find_room, holds, update_in, update_socket}

-- The socket that a lookup returned, if any.
abbrev pub socket_at : List Room → Text → Option Socket
socket_at rs sid = elim (find_socket rs sid) [ none ↦ none | some (r, s) ↦ some s ]

holds-find_in : (ss : List Socket) (sid : Text) → holds ss sid ≡ false → find_in ss sid ≡ none
unfolding holds find_in
holds-find_in [] sid h = refl
holds-find_in (s ∷ ss) sid h = ground (arith, holds-find_in ss sid)

find_in_of_holds :
    (ss : List Socket) (sid : Text) → holds ss sid ≡ true → (s : Socket) × (find_in ss sid ≡ some s)
unfolding holds find_in
find_in_of_holds [] sid h = cc
find_in_of_holds (s ∷ ss) sid h = elim (Bool-cases (s.id == sid)) [
  | inl e ↦ (s, rw e)
  | inr e ↦ rw e (find_in_of_holds ss sid (ground arith))
]

pub id_of_find_in :
    (ss : List Socket) (sid : Text) (s : Socket) → find_in ss sid ≡ some s → s.id ≡ sid
unfolding find_in
id_of_find_in [] sid s h = cc
id_of_find_in (t ∷ ss) sid s h = ground (arith, eq_iff t.id sid, id_of_find_in ss sid s)

pub id_of_find_socket :
    (rs : List Room) (sid : Text) (r : Room) (s : Socket)
    → find_socket rs sid ≡ some (r, s)
    → s.id ≡ sid
unfolding find_socket
id_of_find_socket [] sid q s h = cc
id_of_find_socket (r ∷ rs) sid q s h =
    ground (arith, id_of_find_in r.sockets sid s, id_of_find_socket rs sid q s)

pub id_of_find_room :
    (rs : List Room) (rid : Text) (q : Room) → find_room rs rid ≡ some q → q.id ≡ rid
unfolding find_room
id_of_find_room [] rid q h = cc
id_of_find_room (r ∷ rs) rid q h = ground (arith, eq_iff r.id rid, id_of_find_room rs rid q)

-- Functions that leave ids alone.
module _ (f : Socket → Socket) (keeps : (s : Socket) → (f s).id ≡ s.id) where
  find_in-update_in :
      (ss : List Socket) (sid j : Text)
      → find_in (update_in sid f ss) j
        ≡ (if sid == j then Option.map f (find_in ss j) else find_in ss j)
  unfolding find_in update_in
  find_in-update_in [] sid j = ground arith
  find_in-update_in (s ∷ ss) sid j = ground (
    arith,
    find_in-update_in ss sid j,
    keeps s,
    eq_iff s.id sid,
    eq_iff s.id j,
    eq_iff sid j,
    eq_iff (f s).id j,
  )

  socket_ids-update_in :
      (ss : List Socket) (sid : Text) → socket_ids (update_in sid f ss) ≡ socket_ids ss
  unfolding update_in
  socket_ids-update_in [] sid = refl
  socket_ids-update_in (s ∷ ss) sid = ground (arith, keeps s, socket_ids-update_in ss sid)

  pub ids_of-update_socket :
      (rs : List Room) (sid : Text) → ids_of (update_socket sid f rs) ≡ ids_of rs
  unfolding update_socket
  ids_of-update_socket [] sid = refl
  ids_of-update_socket (r ∷ rs) sid =
      ground (arith, socket_ids-update_in r.sockets sid, ids_of-update_socket rs sid)

  -- A lookup after an assignment to the socket `sid`.
  pub socket_at-update_socket :
      (rs : List Room) (sid j : Text)
      → socket_at (update_socket sid f rs) j
        ≡ (if sid == j then Option.map f (socket_at rs j) else socket_at rs j)
  unfolding find_socket update_socket
  socket_at-update_socket [] sid j = ground arith
  socket_at-update_socket (r ∷ rs) sid j = ground (
    arith,
    socket_at-update_socket rs sid j,
    find_in-update_in r.sockets sid j,
    holds-find_in r.sockets sid,
    find_in_of_holds r.sockets sid,
    eq_iff sid j,
  )
