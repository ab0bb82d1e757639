-- ===== src/Store/Record/One.antt =====
-- Recording a command on one socket.
use librsswitch.Base.{
  Bool, false, if◌then◌else◌, ◌≢◌, ◌≡◌, arith, true, refl, ℕ, List, [], ◌∷◌, Option, none, some,
}
use librsswitch.Base.Text.{Text, eq_refl}
use librsswitch.Model.Types.{State, Socket, Room, Kind, rev_008345, pollin_2605}
use librsswitch.Store.Find.{find_socket}
use librsswitch.Store.Find.Laws.{socket_at}
use librsswitch.Store.Record.{
  Address, address_of, same_kind, same_address, stamp, is_recordable, record_one, record_ids,
}
use librsswitch.Store.Record.Laws.{stamped, stamped-eq, socket_at-record_one}

same_kind_eq : (k l : Kind) → same_kind k l ≡ true → k ≡ l
unfolding same_kind
same_kind_eq rev_008345 rev_008345 h = refl
same_kind_eq pollin_2605 pollin_2605 h = refl
same_kind_eq rev_008345 pollin_2605 h = cc
same_kind_eq pollin_2605 rev_008345 h = cc

pub same_address_eq : (a b : Address) → same_address a b ≡ true → a ≡ b
unfolding same_address
same_address_eq a b h =
    let kind : a.kind ≡ b.kind = same_kind_eq a.kind b.kind (ground arith) in
    let group : a.group ≡ b.group = ground arith in
    let number : a.number ≡ b.number = ground arith in cc

written_first : (sid : Text) (b : Bool) → (if b then sid ∷ [] else []) ≢ [] → b ≡ true
written_first sid true h = refl
written_first sid false h = absurd (h refl)

module _ (parse_time : Text → Option ℕ) (address : Address) (state : State) (at sid : Text) where
  -- What a socket is after a command to it was recorded.
  abbrev pub Stamped : List Room → Type 0
  Stamped rooms =
      (t : Socket) × (socket_at rooms sid ≡ some t)
      × (t.last_sent ≡ some (record { state = state; at = at }))
      × (address_of t ≡ address)

  recordable_address :
      (s : Socket) → is_recordable parse_time address at s ≡ true → address_of s ≡ address
  unfolding is_recordable
  recordable_address s h = same_address_eq (address_of s) address (ground arith)

  record_one-Stamped :
      (rooms : List Room) (o : Option (Room × Socket))
      → find_socket rooms sid ≡ o
      → (record_one parse_time address state at sid o rooms).0 ≡ true
      → Stamped (record_one parse_time address state at sid o rooms).1
  unfolding record_one stamp
  record_one-Stamped rooms none e h = ground arith
  record_one-Stamped rooms (some (r, s)) e h =
      let takes_it : is_recordable parse_time address at s ≡ true = ground arith in
      let lookup = socket_at-record_one parse_time address state at rooms sid sid (some (r, s)) e in
      let same : stamped parse_time address state at s ≡ stamp state at s =
        stamped-eq parse_time address state at s takes_it in
      (
        stamp state at s,
        ground (arith, lookup, eq_refl sid, same),
        refl,
        recordable_address s takes_it,
      )

  -- Where the loop over one id has written it, the socket has the command as its last_sent, and
  -- the address that was sent.
  pub record_ids_one :
      (rooms : List Room)
      → (record_ids parse_time (sid ∷ []) address state at rooms).0 ≢ []
      → Stamped (record_ids parse_time (sid ∷ []) address state at rooms).1
  unfolding record_ids
  record_ids_one rooms h =
      let o = find_socket rooms sid in
      record_one-Stamped rooms o refl
        (written_first sid (record_one parse_time address state at sid o rooms).0 h)
