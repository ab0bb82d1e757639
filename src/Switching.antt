-- ===== src/Switching.antt =====
-- All-off of examples/web/rsswitch_web/switching.py. The answers of the daemon client, of the clock
-- and of the store, one for each command that is sent, are a parameter.

pub mod Results
pub mod Counts
pub mod One
use librsswitch.Base.{
  ℕ, ◌+◌, Bool, true, false, not, ◌&&◌, List, [], ◌∷◌, ◌++◌, Option, none, some, length,
  ◌==◌ as nat_eq, if◌then◌else◌,
}
use librsswitch.Base.Result.{Result, ok, err, ◌>>=◌}
use librsswitch.Base.Text.{Text, text, ◌==◌, contains}
use librsswitch.Model.Types.{off, LastSent, Socket, Room, Document}
use librsswitch.Errors.{Abort, Handled, not_found, key_error}
use librsswitch.Store.Find.{find_room}
use librsswitch.Store.Record.{Address, address_of, same_address}
use librsswitch.Store.File.{Failure, store_error, os_error, raised}
use librsswitch.Daemon.{DaemonError, Info, daemon_error_info, ends_batch}

-- What the calls for one command return: `client.send`, `clock`, and `store.record_last_sent`.
pub record Round : Type 0 where
  pub send : Option DaemonError
  pub at : Text
  pub stored : Result (Failure Abort) (List Text)

-- How All-off went for one socket. `done` carries its last_sent when that was recorded.
pub data Outcome : Type 0 where
  done : Option LastSent → Outcome
  failed : Info → Outcome
  skipped : Info → Outcome

pub data Event : Type 0 where
  sleep : Event
  sent_to : Address → Event

-- The local variables of the loop, and what it has done outside.
pub record Batch : Type 0 where
  pub outcome : List (Text × Outcome)
  pub stop_error : Option Info
  pub sent : ℕ
  pub events : List Event

-- `_record`: a StoreError is logged and counts as nothing recorded.
unfoldable pub recorded : Result (Failure Abort) (List Text) → Result (Failure Abort) (List Text)
recorded (ok written) = ok written
recorded (err store_error) = ok []
recorded (err e) = err e

-- `members.setdefault(address, []).append(id)`
unfoldable pub add_member : Address → Text → List (Address × List Text) → List (Address × List Text)
add_member address sid [] = (address, sid ∷ []) ∷ []
add_member address sid ((a, ids) ∷ ms) =
    if same_address a address
    then (a, ids ++ sid ∷ []) ∷ ms
    else (a, ids) ∷ add_member address sid ms

unfoldable pub members_from :
    List (Text × Socket) → List (Address × List Text) → List (Address × List Text)
members_from [] ms = ms
members_from ((room, s) ∷ ss) ms = members_from ss (add_member (address_of s) s.id ms)

abbrev pub members_of : List (Text × Socket) → List (Address × List Text)
members_of ss = members_from ss []

-- The list `sockets`: each one with the id of its room.
unfoldable pub in_room : Text → List Socket → List (Text × Socket)
in_room rid [] = []
in_room rid (s ∷ ss) = (rid, s) ∷ in_room rid ss

unfoldable pub sockets_in : List Room → List (Text × Socket)
unfolding in_room
sockets_in [] = []
sockets_in (r ∷ rs) = in_room r.id r.sockets ++ sockets_in rs

-- `outcome[sid] = ...` for each id. A later assignment stands before an earlier one.
unfoldable pub assign_all :
    (Text → Outcome) → List Text → List (Text × Outcome) → List (Text × Outcome)
assign_all f [] outcome = outcome
assign_all f (sid ∷ ids) outcome = assign_all f ids ((sid, f sid) ∷ outcome)

unfoldable pub outcome_at : Text → List (Text × Outcome) → Option Outcome
outcome_at sid [] = none
outcome_at sid ((i, o) ∷ os) = if i == sid then some o else outcome_at sid os

-- The outcome of a socket after the OK of its address.
unfoldable pub confirmed : Text → List Text → Text → Outcome
confirmed at written sid =
    if contains sid written then done (some (record { state = off; at = at })) else done none

-- What follows the call of `client.send`, by the DaemonError that it raised, if any.
unfoldable pub after_send :
    List Text → Option DaemonError → Round → Batch → Result (Failure Abort) Batch
unfolding recorded
after_send ids (some e) round batch =
    let info = daemon_error_info e in
    ok (record batch {
      outcome = assign_all (λ sid. failed info) ids batch.outcome;
      stop_error = if ends_batch e then some info else none;
    })
after_send ids none round batch = do
  written ← recorded round.stored
  ok (record batch { outcome = assign_all (confirmed round.at written) ids batch.outcome })

-- The wait and the command, as events.
unfoldable pub started : Address → Batch → Batch
started address batch =
    let events = if nat_eq batch.sent 0 then batch.events else batch.events ++ sleep ∷ [] in
    record batch { sent = batch.sent + 1; events = events ++ sent_to address ∷ [] }

module _ (rounds : ℕ → Round) where
  -- One turn of the loop over the addresses, by the `stop_error` before it.
  unfoldable pub turn : Address → List Text → Option Info → Batch → Result (Failure Abort) Batch
  unfolding after_send started
  turn address ids (some info) batch =
      ok (record batch { outcome = assign_all (λ sid. skipped info) ids batch.outcome })
  turn address ids none batch =
      let round = rounds batch.sent in after_send ids round.send round (started address batch)

  unfoldable pub turns : List (Address × List Text) → Batch → Result (Failure Abort) Batch
  unfolding turn
  turns [] batch = ok batch
  turns ((address, ids) ∷ ms) batch = do
    next ← turn address ids batch.stop_error batch
    turns ms next

abbrev pub no_batch : Batch
no_batch = record { outcome = []; stop_error = none; sent = 0; events = [] }

-- One entry of `results`: socket_id, room_id and the outcome.
abbrev pub Entry : Type 0
Entry = Text × Text × Outcome

pub record Summary : Type 0 where
  pub ok_count : ℕ
  pub error_count : ℕ
  pub skipped_count : ℕ

unfoldable pub count_one : Outcome → Summary → Summary
count_one (done last) s = record s { ok_count = s.ok_count + 1 }
count_one (failed info) s = record s { error_count = s.error_count + 1 }
count_one (skipped info) s = record s { skipped_count = s.skipped_count + 1 }

unfoldable pub summarize : List Entry → Summary → Summary
unfolding count_one
summarize [] s = s
summarize ((sid, rid, o) ∷ es) s = summarize es (count_one o s)

-- The entries, in display order. `none` is the KeyError of `outcome[sock["id"]]`.
unfoldable pub entries_of : List (Text × Outcome) → List (Text × Socket) → Option (List Entry)
entries_of outcome [] = some []
entries_of outcome ((rid, s) ∷ ss) = elim (outcome_at s.id outcome) [
  | none ↦ none
  | some o ↦ elim (entries_of outcome ss) [ none ↦ none | some es ↦ some ((s.id, rid, o) ∷ es) ]
]

pub record Report : Type 0 where
  pub all_ok : Bool
  pub results : List Entry
  pub summary : Summary

unfoldable pub report_of : List Entry → Report
unfolding summarize
report_of es =
    let s = summarize es (record { ok_count = 0; error_count = 0; skipped_count = 0 }) in
    record { all_ok = nat_eq s.ok_count (length es); results = es; summary = s }

unfoldable pub finish_with : Option (List Entry) → Batch → Result (Failure Abort) (Report × Batch)
unfolding report_of
finish_with none batch = err (raised key_error)
finish_with (some es) batch = ok (report_of es, batch)

unfoldable pub finish : List (Text × Socket) → Batch → Result (Failure Abort) (Report × Batch)
unfolding finish_with
finish sockets batch = finish_with (entries_of batch.outcome sockets) batch

-- The rooms that a request is about.
unfoldable pub chosen : Option Text → List Room → Handled (List Room)
chosen none rooms = ok rooms
chosen (some rid) rooms = elim (find_room rooms rid) [
  | none ↦ err (not_found (text "room not found"))
  | some room ↦ ok (room ∷ [])
]

unfoldable pub batch_over :
    (ℕ → Round) → List (Text × Socket) → Result (Failure Abort) (Report × Batch)
batch_over rounds sockets = do
  batch ← turns rounds (members_of sockets) no_batch
  finish sockets batch

-- `all_off`, of the document that `snapshot` returned.
unfoldable pub all_off :
    (ℕ → Round) → Option Text → Document → Result (Failure Abort) (Report × Batch)
unfolding chosen batch_over
all_off rounds room_id d = elim (chosen room_id d.rooms) [
  | err e ↦ err (raised e)
  | ok rooms ↦ batch_over rounds (sockets_in rooms)
]
