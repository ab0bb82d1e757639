-- ===== src/Store/Record/Laws.antt =====
-- Which sockets a confirmed command is recorded on.
use mathlib.Core.Option
use librsswitch.Base.{
  ℕ, ◌≡◌, ◌∙◌, refl, ap, Bool, true, false, ◌&&◌, List, [], ◌∷◌, Option, none, some, if◌then◌else◌,
  arith,
}
use librsswitch.Base.Text.{Text, ◌==◌, contains, eq_iff}
use librsswitch.Model.Types.{State, Socket, Room}
use librsswitch.Model.Valid.{ids_of}
use librsswitch.Store.Find.{find_socket}
use librsswitch.Store.Find.Laws.{socket_at, socket_at-update_socket, ids_of-update_socket}
use librsswitch.Store.Record.{
  Address, stamp, seconds_ahead, is_newer, is_recordable, record_one, record_ids,
}

module _ (parse_time : Text → Option ℕ) (address : Address) (state : State) (at : Text) where
  -- A socket after a confirmed command to its address, or to another.
  unfoldable pub stamped : Socket → Socket
  stamped s = if is_recordable parse_time address at s then stamp state at s else s

  pub stamped-eq :
      (s : Socket) → is_recordable parse_time address at s ≡ true → stamped s ≡ stamp state at s
  unfolding stamped
  stamped-eq s h = ground arith

  ids_of-record_one :
      (sid : Text) (o : Option (Room × Socket)) (rooms : List Room)
      → ids_of (record_one parse_time address state at sid o rooms).1 ≡ ids_of rooms
  unfolding record_one stamp
  ids_of-record_one sid none rooms = refl
  ids_of-record_one sid (some (r, s)) rooms =
      ground (arith, ids_of-update_socket (stamp state at) (λ s. refl) rooms sid)

  pub ids_of-record_ids :
      (ids : List Text) (rooms : List Room)
      → ids_of (record_ids parse_time ids address state at rooms).1 ≡ ids_of rooms
  unfolding record_ids
  ids_of-record_ids [] rooms = refl
  ids_of-record_ids (sid ∷ ids) rooms =
      let next = (record_one parse_time address state at sid (find_socket rooms sid) rooms).1 in
      ids_of-record_ids ids next ∙ ids_of-record_one sid (find_socket rooms sid) rooms

  -- An equal time is not newer, so a second round on the same socket writes the same again.
  is_recordable-stamp :
      (s : Socket)
      → is_recordable parse_time address at s ≡ true
      → is_recordable parse_time address at (stamp state at s) ≡ true
  unfolding is_recordable stamp is_newer seconds_ahead
  is_recordable-stamp s h = ground arith

  id-stamp : (s : Socket) → (stamp state at s).id ≡ s.id
  unfolding stamp
  id-stamp s = refl

  stamp-stamp : (s : Socket) → stamp state at (stamp state at s) ≡ stamp state at s
  unfolding stamp
  stamp-stamp s = refl

  stamped-stamped : (s : Socket) → stamped (stamped s) ≡ stamped s
  unfolding stamped
  stamped-stamped s = ground (arith, is_recordable-stamp s, stamp-stamp s)

  map-stamped_twice :
      (o : Option Socket) → Option.map stamped (Option.map stamped o) ≡ Option.map stamped o
  map-stamped_twice none = refl
  map-stamped_twice (some s) = ap some (stamped-stamped s)

  -- The socket is there, and the command is recorded on it.
  unfoldable pub takes : Option Socket → Bool
  takes none = false
  takes (some s) = is_recordable parse_time address at s

  takes-stamped : (o : Option Socket) → takes (Option.map stamped o) ≡ takes o
  unfolding takes stamped
  takes-stamped none = refl
  takes-stamped (some s) = ground (arith, is_recordable-stamp s)

  -- A lookup by an equal id.
  same_lookup :
      (rooms : List Room) (sid j : Text) (o : Option (Room × Socket))
      → find_socket rooms sid ≡ o
      → (j == sid) ≡ true
      → find_socket rooms j ≡ o
  same_lookup rooms sid j o e h = ap (find_socket rooms) ((eq_iff j sid).0 h) ∙ e

  pub socket_at-record_one :
      (rooms : List Room) (sid j : Text) (o : Option (Room × Socket))
      → find_socket rooms sid ≡ o
      → socket_at (record_one parse_time address state at sid o rooms).1 j
        ≡ (if j == sid then Option.map stamped (socket_at rooms j) else socket_at rooms j)
  unfolding record_one stamped
  socket_at-record_one rooms sid j none e = ground (arith, same_lookup rooms sid j none)
  socket_at-record_one rooms sid j (some (r, s)) e = ground (
    arith,
    same_lookup rooms sid j (some (r, s)),
    eq_iff j sid,
    eq_iff sid j,
    socket_at-update_socket (stamp state at) id-stamp rooms sid j,
  )

  -- The socket of any id, after the loop.
  pub socket_at-record_ids :
      (ids : List Text) (rooms : List Room) (j : Text)
      → socket_at (record_ids parse_time ids address state at rooms).1 j
        ≡ (if contains j ids then Option.map stamped (socket_at rooms j) else socket_at rooms j)
  unfolding record_ids contains
  socket_at-record_ids [] rooms j = refl
  socket_at-record_ids (sid ∷ ids) rooms j =
      let o = find_socket rooms sid in
      let next = (record_one parse_time address state at sid o rooms).1 in
      ground (
        arith,
        socket_at-record_ids ids next j,
        socket_at-record_one rooms sid j o refl,
        map-stamped_twice (socket_at rooms j),
      )

  changed-record_one :
      (rooms : List Room) (sid : Text) (o : Option (Room × Socket))
      → find_socket rooms sid ≡ o
      → (record_one parse_time address state at sid o rooms).0 ≡ takes (socket_at rooms sid)
  unfolding record_one takes
  changed-record_one rooms sid none e = ground arith
  changed-record_one rooms sid (some (r, s)) e = ground arith

  takes_after :
      (rooms : List Room) (sid j : Text)
      → takes
          (socket_at (record_one parse_time address state at sid (find_socket rooms sid) rooms).1 j)
        ≡ takes (socket_at rooms j)
  takes_after rooms sid j = ground (
    arith,
    socket_at-record_one rooms sid j (find_socket rooms sid) refl,
    takes-stamped (socket_at rooms j),
  )

  -- The ids that the loop returns are those of the list whose socket is there and takes the
  -- command, judged by the document as it was.
  pub contains-record_ids :
      (ids : List Text) (rooms : List Room) (j : Text)
      → contains j (record_ids parse_time ids address state at rooms).0
        ≡ (contains j ids && takes (socket_at rooms j))
  unfolding record_ids contains
  contains-record_ids [] rooms j = refl
  contains-record_ids (sid ∷ ids) rooms j =
      let o = find_socket rooms sid in
      let next = (record_one parse_time address state at sid o rooms).1 in
      ground (
        arith,
        contains-record_ids ids next j,
        takes_after rooms sid j,
        changed-record_one rooms sid o refl,
        same_lookup rooms sid j o refl,
      )
