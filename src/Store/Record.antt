-- ===== src/Store/Record.antt =====
-- `Store.record_last_sent` of examples/web/rsswitch_web/store.py: what it does to the document
-- under the lock. `parse_time` is `datetime.strptime` with _AT_FORMAT, as microseconds from a fixed
-- day, with `none` for its ValueError.
pub mod Laws
pub mod Valid
pub mod One
pub mod Spec
use librsswitch.Base.{
  ℕ, ◌-◌, Bool, true, false, ◌&&◌, not, List, [], ◌∷◌, Option, none, some, ltb, leb, ◌==◌ as nat_eq,
  if◌then◌else◌,
}
use librsswitch.Base.Text.{Text, ◌==◌}
use librsswitch.Model.Types.{Kind, rev_008345, pollin_2605, State, LastSent, Socket, Room}
use librsswitch.Store.Find.{find_socket, update_socket}

-- RACE_WINDOW, 2.0 seconds, in microseconds
abbrev pub race_window : ℕ
race_window = 2000000

-- (type, group, number)
pub record Address : Type 0 where
  pub kind : Kind
  pub group : ℕ
  pub number : ℕ

abbrev pub address_of : Socket → Address
address_of s = record { kind = s.kind; group = s.group; number = s.number }

unfoldable pub same_kind : Kind → Kind → Bool
same_kind rev_008345 rev_008345 = true
same_kind pollin_2605 pollin_2605 = true
same_kind _ _ = false

unfoldable pub same_address : Address → Address → Bool
unfolding same_kind
same_address a b = same_kind a.kind b.kind && nat_eq a.group b.group && nat_eq a.number b.number

unfoldable pub stamp : State → Text → Socket → Socket
stamp state at s = record s { last_sent = some (record { state = state; at = at }) }

module _ (parse_time : Text → Option ℕ) where
  -- `_seconds_ahead`, in microseconds, and 0 where Python returns a number that is not positive
  unfoldable pub seconds_ahead : Text → Text → ℕ
  seconds_ahead stored at = elim (parse_time stored) [
    | none ↦ 0
    | some t ↦ elim (parse_time at) [ none ↦ 0 | some u ↦ t - u ]
  ]

  -- The last_sent is of a later command that was confirmed first.
  unfoldable pub is_newer : Option LastSent → Text → Bool
  is_newer none at = false
  is_newer (some last) at =
      let ahead = seconds_ahead last.at at in ltb 0 ahead && leb ahead race_window

  -- One round of the loop in `record` goes on to the assignment.
  unfoldable pub is_recordable : Address → Text → Socket → Bool
  is_recordable address at s = same_address (address_of s) address && not (is_newer s.last_sent at)

  unfoldable pub record_one :
      Address → State → Text → Text → Option (Room × Socket) → List Room → Bool × List Room
  record_one address state at sid none rooms = (false, rooms)
  record_one address state at sid (some (r, s)) rooms =
      if is_recordable address at s
      then (true, update_socket sid (stamp state at) rooms)
      else (false, rooms)

  -- The loop over the ids: the ids of the changed sockets, and the rooms after it.
  unfoldable pub record_ids : List Text → Address → State → Text → List Room → List Text × List Room
  unfolding record_one
  record_ids [] address state at rooms = ([], rooms)
  record_ids (sid ∷ ids) address state at rooms =
      let (changed, rooms') = record_one address state at sid (find_socket rooms sid) rooms in
      let (written, rooms'') = record_ids ids address state at rooms' in
      (if changed then sid ∷ written else written, rooms'')
