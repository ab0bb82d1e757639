-- ===== src/Store/Record/Valid.antt =====
-- Recording a confirmed command keeps the invariant of the document.
use mathlib.Core.List.{Nodup}
use mathlib.Core.Path.{subst}
use librsswitch.Base.{sym, Bool-cases, List, [], ◌∷◌, Option, none, some, inl, inr, ℕ, All}
use librsswitch.Base.Text.{Text}
use librsswitch.Model.Types.{State, Socket, Room, Document}
use librsswitch.Model.Valid.{IsValidSocket, IsValidRoom, IsValid}
use librsswitch.Store.Find.{find_socket}
use librsswitch.Store.Find.After.{update_socket-All}
use librsswitch.Store.Record.{Address, stamp, is_recordable, record_one, record_ids}
use librsswitch.Store.Record.Laws.{ids_of-record_ids}

module _ (parse_time : Text → Option ℕ) (address : Address) (state : State) (at : Text) where
  stamp-IsValid : (s : Socket) → IsValidSocket s → IsValidSocket (stamp state at s)
  unfolding stamp
  stamp-IsValid s h = record { id = h.id; group = h.group; number = h.number }

  record_one-All :
      (sid : Text) (o : Option (Room × Socket)) (rooms : List Room)
      → All IsValidRoom rooms
      → All IsValidRoom (record_one parse_time address state at sid o rooms).1
  unfolding record_one
  record_one-All sid none rooms h = h
  record_one-All sid (some (r, s)) rooms h =
      elim (Bool-cases (is_recordable parse_time address at s)) [
        | inl e ↦ rw e (update_socket-All (stamp state at) stamp-IsValid rooms sid h)
        | inr e ↦ rw e h
      ]

  record_ids-All :
      (ids : List Text) (rooms : List Room)
      → All IsValidRoom rooms
      → All IsValidRoom (record_ids parse_time ids address state at rooms).1
  unfolding record_ids
  record_ids-All [] rooms h = h
  record_ids-All (sid ∷ ids) rooms h =
      record_ids-All ids _ (record_one-All sid (find_socket rooms sid) rooms h)

  -- Recording a confirmed command in a valid document leaves a valid document.
  pub record_ids-IsValid :
      (ids : List Text) (d : Document)
      → IsValid d
      → IsValid (record d { rooms = (record_ids parse_time ids address state at d.rooms).1 })
  record_ids-IsValid ids d h = record {
    version = h.version;
    rooms = record_ids-All ids d.rooms h.rooms;
    distinct =
        subst Nodup (sym (ids_of-record_ids parse_time address state at ids d.rooms)) h.distinct;
  }
