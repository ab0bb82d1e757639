-- ===== src/Store/Find/After.antt =====
-- What the finders return after an assignment.

use librsswitch.Base.{
  ◌≡◌, refl, true, false, Bool-cases, Option-cases, List, [], ◌∷◌, none, some, inl, inr, All, arith,
}
use librsswitch.Base.Text.{Text, ◌==◌}
use librsswitch.Model.Types.{Socket, Room}
use librsswitch.Model.Valid.{IsValidSocket, IsValidRoom}
use librsswitch.Store.Find.{
  find_in, find_room, find_socket, holds, update_in, update_socket, update_room,
}

-- A room is there after an assignment to a room that keeps its id.
pub found_after_update_room :
    (f : Room → Room)
    → ((r : Room) → (f r).id ≡ r.id)
    → (rs : List Room) (rid j : Text) (r : Room) → find_room rs j ≡ some r
    → (q : Room) × (find_room (update_room rid f rs) j ≡ some q)
unfolding find_room update_room
found_after_update_room f keeps [] rid j r h = cc
found_after_update_room f keeps (p ∷ rs) rid j r h = elim (Bool-cases (p.id == rid)) [
  | inl e ↦ rw e (elim (Bool-cases (p.id == j)) [
    | inl e' ↦ (f p, ground (arith, keeps p))
    | inr e' ↦ (r, ground (arith, keeps p))
  ])
  | inr e ↦ rw e (elim (Bool-cases (p.id == j)) [
    | inl e' ↦ (p, rw e')
    | inr e' ↦ rw e' (found_after_update_room f keeps rs rid j r (ground arith))
  ])
]

pub found_after_update_socket :
    (f : Socket → Socket) (rs : List Room) (sid j : Text) (r : Room)
    → find_room rs j ≡ some r
    → (q : Room) × (find_room (update_socket sid f rs) j ≡ some q)
unfolding find_room update_socket
found_after_update_socket f [] sid j r h = cc
found_after_update_socket f (p ∷ rs) sid j r h = elim (Bool-cases (holds p.sockets sid)) [
  | inl e ↦ rw e (elim (Bool-cases (p.id == j)) [
    | inl e' ↦ (record p { sockets = update_in sid f p.sockets }, rw e')
    | inr e' ↦ (r, ground arith)
  ])
  | inr e ↦ rw e (elim (Bool-cases (p.id == j)) [
    | inl e' ↦ (p, rw e')
    | inr e' ↦ rw e' (found_after_update_socket f rs sid j r (ground arith))
  ])
]

module _ (f : Socket → Socket) (keeps : (s : Socket) → (f s).id ≡ s.id) where
  found_in_after :
      (ss : List Socket) (sid : Text) (s : Socket)
      → find_in ss sid ≡ some s
      → (holds ss sid ≡ true) × (find_in (update_in sid f ss) sid ≡ some (f s))
  unfolding find_in holds update_in
  found_in_after [] sid s h = cc
  found_in_after (t ∷ ss) sid s h = elim (Bool-cases (t.id == sid)) [
    | inl e ↦ (ground arith, ground (arith, keeps t))
    | inr e ↦
        let found = found_in_after ss sid s (ground arith) in
        (ground (arith, found.0), ground (arith, found.1))
  ]

  holds_of_missing : (ss : List Socket) (sid : Text) → find_in ss sid ≡ none → holds ss sid ≡ false
  unfolding find_in holds
  holds_of_missing [] sid h = refl
  holds_of_missing (t ∷ ss) sid h = ground (arith, holds_of_missing ss sid)

  -- The socket that was assigned to is found in its room, as it is now.
  pub found_socket_after :
      (rs : List Room) (sid : Text) (r : Room) (s : Socket)
      → find_socket rs sid ≡ some (r, s)
      → find_socket (update_socket sid f rs) sid
        ≡ some (record r { sockets = update_in sid f r.sockets }, f s)
  unfolding find_socket update_socket
  found_socket_after [] sid r s h = cc
  found_socket_after (p ∷ rs) sid r s h = elim (Option-cases (find_in p.sockets sid)) [
    | inl e ↦ ground (arith, holds_of_missing p.sockets sid e, found_socket_after rs sid r s)
    | inr (t, e) ↦ ground (arith, found_in_after p.sockets sid t e)
  ]

module _ (f : Socket → Socket) (keeps : (s : Socket) → IsValidSocket s → IsValidSocket (f s)) where
  update_in-All :
      (ss : List Socket) (sid : Text)
      → All IsValidSocket ss
      → All IsValidSocket (update_in sid f ss)
  unfolding update_in
  update_in-All [] sid h = tt
  update_in-All (s ∷ ss) sid h = elim (Bool-cases (s.id == sid)) [
    | inl e ↦ rw e (keeps s h.0, h.1)
    | inr e ↦ rw e (h.0, update_in-All ss sid h.1)
  ]

  pub update_socket-All :
      (rs : List Room) (sid : Text) → All IsValidRoom rs → All IsValidRoom (update_socket sid f rs)
  unfolding update_socket
  update_socket-All [] sid h = tt
  update_socket-All (r ∷ rs) sid h = elim (Bool-cases (holds r.sockets sid)) [
    | inl e ↦ rw e (record { id = h.0.id; sockets = update_in-All r.sockets sid h.0.sockets }, h.1)
    | inr e ↦ rw e (h.0, update_socket-All rs sid h.1)
  ]
