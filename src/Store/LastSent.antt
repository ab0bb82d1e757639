-- ===== src/Store/LastSent.antt =====
-- `Store.record_last_sent` of examples/web/rsswitch_web/store.py as a whole: `record` under
-- `mutate`.
pub mod Stored
use librsswitch.Base.{ℕ, List, Option}
use librsswitch.Base.Result.{Result, ok}
use librsswitch.Base.Text.{Text}
use librsswitch.Jsonutil.{Stdlib}
use librsswitch.Model.Types.{State, Room, Document}
use librsswitch.Errors.{Abort, Handled}
use librsswitch.Store.File.{Disk, Failure, Answers, mutate}
use librsswitch.Store.Record.{Address, record_ids}

abbrev pub with_written : Document → List Text × List Room → List Text × Document
with_written d (written, rooms) = (written, record d { rooms = rooms })

module _ (parse_time : Text → Option ℕ) (ids : List Text) (address : Address) (state : State)
    (at : Text) where
  -- The function `record`.
  abbrev pub recording : Document → Handled (List Text × Document)
  recording d = ok (with_written d (record_ids parse_time ids address state at d.rooms))

  unfoldable pub record_last_sent :
      Stdlib → Answers → Disk → Result (Failure Abort) (List Text) × Disk
  record_last_sent lib sys disk = mutate lib recording sys disk
