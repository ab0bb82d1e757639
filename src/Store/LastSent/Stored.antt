-- ===== src/Store/LastSent/Stored.antt =====
-- What `record_last_sent` leaves on the disk.
use librsswitch.Base.{arith, ◌≡◌, true, refl, ℕ, List, Option}
use mathlib.Core.Path.{subst}
use librsswitch.Base.Result.{ok, err}
use librsswitch.Base.Text.{Text}
use librsswitch.Jsonutil.{Stdlib}
use librsswitch.Model.Types.{State, Document}
use librsswitch.Model.Valid.{IsValid}
use librsswitch.Errors.{Abort}
use librsswitch.Store.File.{Disk, Failure, store_error, Answers, load, snapshot}
use librsswitch.Store.File.Write.{Codec, load-IsValid}
use librsswitch.Store.File.Keeps.{Loads, mutate-Loads}
use librsswitch.Store.File.Fails.{mutate_fails}
use librsswitch.Store.File.Mutate.{mutate_stores}
use librsswitch.Store.Record.{Address, record_ids}
use librsswitch.Store.Record.Valid.{record_ids-IsValid}
use librsswitch.Store.LastSent.{recording, record_last_sent}

module _ (lib : Stdlib) (parse_time : Text → Option ℕ) (ids : List Text) (address : Address)
    (state : State) (at : Text) where
  -- Recording a command leaves a data file that can be loaded.
  pub record_last_sent-Loads :
      (sys : Answers) (disk : Disk)
      → Codec lib
      → Loads lib Abort disk
      → Loads lib Abort (record_last_sent parse_time ids address state at lib sys disk).1
  unfolding record_last_sent
  record_last_sent-Loads sys disk codec loads =
      mutate-Loads lib Abort (recording parse_time ids address state at) sys disk
        (λ d d' a valid h.
          let kept = record_ids-IsValid parse_time address state at ids d valid in
          let same : (record d { rooms = (record_ids parse_time ids address state at d.rooms).1 })
              ≡ d' =
            ground arith in
          let valid' = subst IsValid same kept in (valid', codec d' valid'))
        loads

  pub record_last_sent-OnlyStoreError :
      (sys : Answers) (disk : Disk) (e : Failure Abort)
      → sys.unlink ≡ true
      → (record_last_sent parse_time ids address state at lib sys disk).0 ≡ err e
      → e ≡ store_error
  unfolding record_last_sent
  record_last_sent-OnlyStoreError sys disk e removed h =
      mutate_fails lib (recording parse_time ids address state at) sys disk e removed
        (λ d x h'. ground arith) h

  -- A command that the store has recorded: the ids that it returns, and the document that the next
  -- `snapshot` returns, are those of the loop over the document that was on the disk.
  pub snapshot-record_last_sent :
      (sys : Answers) (disk after : Disk) (d : Document) (written : List Text)
      → Codec lib
      → load lib {E = Abort} disk ≡ ok d
      → record_last_sent parse_time ids address state at lib sys disk ≡ (ok written, after)
      → let (w, rooms) = record_ids parse_time ids address state at d.rooms in
        (written ≡ w) × (snapshot lib {E = Abort} after ≡ ok (record d { rooms = rooms }))
  unfolding record_last_sent
  snapshot-record_last_sent sys disk after d written codec loaded h =
      let (w, rooms) = record_ids parse_time ids address state at d.rooms in
      let d' : Document = record d { rooms = rooms } in
      let valid =
        record_ids-IsValid parse_time address state at ids d (load-IsValid lib disk d loaded) in
      let (same, stored, _) =
        mutate_stores lib (recording parse_time ids address state at) sys disk d d' w written after
          loaded refl valid (codec d' valid) h in
      (same, stored)
