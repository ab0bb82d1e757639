-- ===== src/Store/Find/Ids.antt =====
-- The ids and the validity of a document after an assignment to one of its rooms.
use mathlib.Core.List.Nodup
use mathlib.Core.List.Sublist
use mathlib.Core.List.{Sublist, nil-sublist, sublist-append_right, mem-cons_self, mem-cons_of_mem}
use mathlib.Core.List.{
  Nodup, Nodup-cons, Nodup-append, Perm, Mem, perm_middle, perm_append_comm, append_assoc,
}
use mathlib.Core.List.Perm
use mathlib.Core.Path.{subst, subst₂}
use librsswitch.Base.{
  ◌≡◌, refl, sym, false, Bool-cases, Option-cases, List, [], ◌∷◌, ◌++◌, some, inl, inr, All, arith,
}
use librsswitch.Base.Text.{Text, ◌==◌, eq_iff, eq_refl}
use librsswitch.Model.Types.{Socket, Room}
use librsswitch.Model.Valid.{socket_ids, room_ids, ids_of, IsValidSocket, IsValidRoom}
use librsswitch.Store.Find.{find_in, find_room, find_socket, update_room, remove_in}

-- A block moves over another.
pub swap_blocks : (xs qs ts : List Text) → Perm (xs ++ (qs ++ ts)) (qs ++ (xs ++ ts))
swap_blocks xs qs ts =
    subst₂ Perm (append_assoc xs qs ts) (append_assoc qs xs ts)
      (Perm.append_right ts (perm_append_comm xs qs))

at_head :
    (a : Text) (s s' t xs ys : List Text)
    → Perm (xs ++ s) (ys ++ s')
    → Perm (xs ++ a ∷ (s ++ t)) (ys ++ a ∷ (s' ++ t))
at_head a s s' t xs ys p = Perm.trans (perm_middle xs (s ++ t)) (
    Perm.trans
      (Perm.cons a
        (subst₂ Perm (append_assoc xs s t) (append_assoc ys s' t) (Perm.append_right t p)))
      (Perm.symm (perm_middle ys (s' ++ t))))

module _ (f : Room → Room) (keeps : (r : Room) → (f r).id ≡ r.id) where
  -- Where the ids of one room change from `xs` taken away to `ys` added, those of the document do.
  pub ids_of-update_room-Perm :
      (rs : List Room) (rid : Text) (r : Room) (xs ys : List Text)
      → find_room rs rid ≡ some r
      → Perm (xs ++ socket_ids r.sockets) (ys ++ socket_ids (f r).sockets)
      → Perm (xs ++ ids_of rs) (ys ++ ids_of (update_room rid f rs))
  unfolding find_room update_room
  ids_of-update_room-Perm [] rid r xs ys found p = cc
  ids_of-update_room-Perm (q ∷ rs) rid r xs ys found p = elim (Bool-cases (q.id == rid)) [
    | inl e ↦
        let same : r ≡ q = ground arith in
        rw (e, keeps q)
          (at_head q.id _ _ (ids_of rs) xs ys (
            subst (λ (z : Room). Perm (xs ++ socket_ids z.sockets) (ys ++ socket_ids (f z).sockets))
              same p))
    | inr e ↦
        let block = q.id ∷ socket_ids q.sockets in
        let later = ids_of-update_room-Perm rs rid r xs ys (ground arith) p in
        rw e (
          Perm.trans (swap_blocks xs block (ids_of rs)) (
            Perm.trans (Perm.append_left block later)
              (Perm.symm (swap_blocks ys block (ids_of (update_room rid f rs))))))
  ]

-- A room that keeps its id and the ids of its sockets.
pub ids_of-update_room :
    (f : Room → Room)
    → ((r : Room) → (f r).id ≡ r.id)
    → ((r : Room) → socket_ids (f r).sockets ≡ socket_ids r.sockets)
    → (rs : List Room) (rid : Text) → ids_of (update_room rid f rs) ≡ ids_of rs
unfolding update_room
ids_of-update_room f keeps same [] rid = refl
ids_of-update_room f keeps same (r ∷ rs) rid =
    ground (arith, keeps r, same r, ids_of-update_room f keeps same rs rid)

pub update_room-All :
    (f : Room → Room) (rs : List Room) (rid : Text)
    → ((r : Room) → IsValidRoom r → IsValidRoom (f r))
    → All IsValidRoom rs
    → All IsValidRoom (update_room rid f rs)
unfolding update_room
update_room-All f [] rid keeps h = tt
update_room-All f (r ∷ rs) rid keeps h = elim (Bool-cases (r.id == rid)) [
  | inl e ↦ rw e (keeps r h.0, h.1)
  | inr e ↦ rw e (h.0, update_room-All f rs rid keeps h.1)
]

-- The ids of a room's sockets around a removal.
pub socket_ids-remove_in :
    (ss : List Socket) (sid : Text) (s : Socket)
    → find_in ss sid ≡ some s
    → Perm (socket_ids ss) (sid ∷ socket_ids (remove_in sid ss))
unfolding find_in remove_in
socket_ids-remove_in [] sid s h = cc
socket_ids-remove_in (t ∷ ss) sid s h = elim (Bool-cases (t.id == sid)) [
  | inl e ↦ rw (e, (eq_iff t.id sid).0 e) (Perm.refl _)
  | inr e ↦ rw e (
      Perm.trans (Perm.cons t.id (socket_ids-remove_in ss sid s (ground arith)))
        (Perm.swap sid t.id (socket_ids (remove_in sid ss))))
]

pub remove_in-All :
    (ss : List Socket) (sid : Text) → All IsValidSocket ss → All IsValidSocket (remove_in sid ss)
unfolding remove_in
remove_in-All [] sid h = tt
remove_in-All (s ∷ ss) sid h = elim (Bool-cases (s.id == sid)) [
  | inl e ↦ rw e h.1
  | inr e ↦ rw e (h.0, remove_in-All ss sid h.1)
]

-- In a document whose ids all differ, the room that `find_socket` returns is the one with its id.
room_of_find_socket-Mem :
    (rs : List Room) (sid : Text) (r : Room) (s : Socket)
    → find_socket rs sid ≡ some (r, s)
    → Mem r.id (room_ids rs)
unfolding find_socket
room_of_find_socket-Mem [] sid r s h = cc
room_of_find_socket-Mem (q ∷ rs) sid r s h = elim (Option-cases (find_in q.sockets sid)) [
  | inl e ↦ mem-cons_of_mem q.id (room_of_find_socket-Mem rs sid r s (ground arith))
  | inr (t, e) ↦
      let same : q ≡ r = ground arith in
      subst (λ (z : Room). Mem z.id (q.id ∷ room_ids rs)) same mem-cons_self
]

pub find_room_of_find_socket :
    (rs : List Room) (sid : Text) (r : Room) (s : Socket)
    → Nodup (room_ids rs)
    → find_socket rs sid ≡ some (r, s)
    → (find_room rs r.id ≡ some r) × (find_in r.sockets sid ≡ some s)
unfolding find_socket find_room
find_room_of_find_socket [] sid r s d h = cc
find_room_of_find_socket (q ∷ rs) sid r s d h = elim (Option-cases (find_in q.sockets sid)) [
  | inl e ↦
      let later : find_socket rs sid ≡ some (r, s) = ground arith in
      let other : (q.id == r.id) ≡ false = elim (Bool-cases (q.id == r.id)) [
        | inl same ↦ absurd (
            (Nodup-cons.0 d).0 (
              subst (λ z. Mem z (room_ids rs)) (sym ((eq_iff q.id r.id).0 same))
                (room_of_find_socket-Mem rs sid r s later)))
        | inr different ↦ different
      ] in
      let found = find_room_of_find_socket rs sid r s (Nodup-cons.0 d).1 later in
      (rw other found.0, found.1)
  | inr (t, e) ↦ (ground (arith, eq_refl r.id), ground arith)
]

room_ids-sublist : (rs : List Room) → Sublist (room_ids rs) (ids_of rs)
room_ids-sublist [] = nil-sublist []
room_ids-sublist (r ∷ rs) =
    Sublist.cons-cons r.id (
      Sublist.trans (room_ids-sublist rs) (sublist-append_right (socket_ids r.sockets) (ids_of rs)))

pub room_ids-Nodup : (rs : List Room) → Nodup (ids_of rs) → Nodup (room_ids rs)
room_ids-Nodup rs d = Nodup.sublist (room_ids-sublist rs) d

pub socket_ids-Nodup :
    (rs : List Room) (rid : Text) (r : Room)
    → find_room rs rid ≡ some r
    → Nodup (ids_of rs)
    → Nodup (socket_ids r.sockets)
unfolding find_room
socket_ids-Nodup [] rid r h d = cc
socket_ids-Nodup (q ∷ rs) rid r h d =
    let rest = (Nodup-append {l₁ = socket_ids q.sockets}).0 (Nodup-cons.0 d).1 in
    elim (Bool-cases (q.id == rid)) [
      | inl e ↦
          let same : q ≡ r = ground arith in
          subst (λ (z : Room). Nodup (socket_ids z.sockets)) same rest.0
      | inr e ↦ socket_ids-Nodup rs rid r (ground arith) rest.1
    ]

-- A property of all sockets or of all rooms holds of those that are found.
pub find_room-All :
    (P : Room → Type 0) (rs : List Room) (rid : Text) (r : Room)
    → All P rs
    → find_room rs rid ≡ some r
    → P r
unfolding find_room
find_room-All P [] rid r h e = cc
find_room-All P (q ∷ rs) rid r h e = elim (Bool-cases (q.id == rid)) [
  | inl same ↦ subst P (ground arith) h.0
  | inr other ↦ find_room-All P rs rid r h.1 (ground arith)
]

pub find_in-All :
    (P : Socket → Type 0) (ss : List Socket) (sid : Text) (s : Socket)
    → All P ss
    → find_in ss sid ≡ some s
    → P s
unfolding find_in
find_in-All P [] sid s h e = cc
find_in-All P (t ∷ ss) sid s h e = elim (Bool-cases (t.id == sid)) [
  | inl same ↦ subst P (ground arith) h.0
  | inr other ↦ find_in-All P ss sid s h.1 (ground arith)
]
