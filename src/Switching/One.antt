-- ===== src/Switching/One.antt =====
-- switch_socket of examples/web/rsswitch_web/switching.py, and the route of
-- examples/web/rsswitch_web/api/switch.py in front of it. What rsswitchd and the clock answer, and
-- what other requests do to the disk meanwhile, are parameters.
pub mod Laws
use librsswitch.Base.{ℕ, Bool, true, false, List, [], ◌∷◌, Option, none, some}
use librsswitch.Base.Result.{Result, ok, err, ◌>>=◌, ◌>>◌}
use librsswitch.Base.Text.{Text, text}
use librsswitch.Jsonutil.{Bytes, Stdlib}
use librsswitch.Json.{Value, null, bool, obj, Fields, end, field}
use librsswitch.Model.Types.{State, on, off, Socket, Room, Document, SocketType, socket_types}
use librsswitch.Model.View.{state_of}
use librsswitch.Errors.{Abort, Handled, not_found, invalid, json_body, reject_unknown_fields}
use librsswitch.Errors.Handlers.{Response, json_response, Raised, daemon_failed, raised_by}
use librsswitch.Store.Find.{find_socket}
use librsswitch.Store.Record.{Address, address_of}
use librsswitch.Store.File.{Disk, Failure, store_error, os_error, raised, Answers, snapshot}
use librsswitch.Store.LastSent.{record_last_sent}
use librsswitch.Daemon.{DaemonError}
use librsswitch.Switching.{recorded}
use librsswitch.Api.Json.{socket_json}
use librsswitch.Api.Common.{get_or_null}

-- What the calls of one request return, and what other requests do to the disk: between the two
-- reads before the command, while that is on its way, and between the record and the last read.
pub record World : Type 0 where
  pub send : ℕ → ℕ → ℕ → ℕ → Option DaemonError
  pub at : Text
  pub sys : Answers
  pub between : Disk → Disk
  pub meanwhile : Disk → Disk
  pub afterwards : Disk → Disk

-- The answer of switch_socket, whose key "ok" is always True.
pub record Switched : Type 0 where
  pub recorded : Bool
  pub socket : Option (Room × Socket)

abbrev pub Ended : Type 0
Ended = Result Raised Switched × Disk

-- `1 if state == "on" else 0`
unfoldable pub level : State → ℕ
level on = 1
level off = 0

-- `bool(written)`
unfoldable pub is_written : List Text → Bool
is_written [] = false
is_written (sid ∷ ids) = true

-- `_socket_now`: `snapshot` raises nothing but a StoreError.
unfoldable pub socket_now : Text → Result (Failure Abort) Document → Option (Room × Socket)
socket_now sid (err e) = none
socket_now sid (ok d) = find_socket d.rooms sid

unfoldable pub socket_or_null : Option (Room × Socket) → Value
socket_or_null none = null
socket_or_null (some (room, s)) = socket_json room s

unfoldable pub switched_json : Switched → Value
unfolding socket_or_null
switched_json s = obj (
    field (text "ok") (bool true) (
      field (text "recorded") (bool s.recorded)
        (field (text "socket") (socket_or_null s.socket) end)))

-- The checks of the route `switch` after the snapshot.
unfoldable pub wanted_state : Option State → Handled State
wanted_state none = err (invalid (text "state must be \"on\" or \"off\"") (text "state"))
wanted_state (some state) = ok state

unfoldable pub known_socket : Option (Room × Socket) → Handled (Unit {0})
known_socket none = err (not_found (text "socket not found"))
known_socket (some _) = ok tt

unfoldable pub checked_state : Text → Fields → Document → Handled State
unfolding wanted_state known_socket
checked_state sid body d = do
  known_socket (find_socket d.rooms sid)
  reject_unknown_fields body (text "state" ∷ [])
  wanted_state (state_of (get_or_null (text "state") body))

unfoldable pub respond : Ended → Result Raised Response × Disk
unfolding switched_json
respond (err e, disk) = (err e, disk)
respond (ok s, disk) = (ok (json_response 200 (switched_json s)), disk)

module _ (lib : Stdlib) (parse_time : Text → Option ℕ) (world : World) (sid : Text) where
  -- What follows `_record`, by its result.
  unfoldable pub after_record : Result (Failure Abort) (List Text) → Disk → Ended
  unfolding is_written socket_now
  after_record (err e) disk = (err (raised_by e), disk)
  after_record (ok written) disk =
      let later = world.afterwards disk in
      (
        ok (record { recorded = is_written written; socket = socket_now sid (snapshot lib later) }),
        later,
      )

  -- What follows the OK of the daemon.
  unfoldable pub after_ok : Address → State → Disk → Ended
  unfolding after_record
  after_ok address state disk =
      let (stored, after) =
        record_last_sent parse_time (sid ∷ []) address state world.at lib world.sys disk in
      after_record (recorded stored) after

  -- What follows `client.send`, by the DaemonError that it raised, if any.
  unfoldable pub after_answer : Address → State → Option DaemonError → Disk → Ended
  unfolding after_ok
  after_answer address state (some e) disk = (err (daemon_failed e), disk)
  after_answer address state none disk = after_ok address state disk

  -- What `client.send` raises for a socket, if anything.
  unfoldable pub send_to : Address → State → Option DaemonError
  unfolding level
  send_to a state = world.send (socket_types a.kind).dev a.group a.number (level state)

  -- What follows `find_socket`, by its result.
  unfoldable pub after_lookup : State → Option (Room × Socket) → Disk → Ended
  unfolding after_answer send_to
  after_lookup state none disk =
      (err (raised_by (raised (not_found (text "socket not found")))), disk)
  after_lookup state (some (room, s)) disk =
      let address = address_of s in
      after_answer address state (send_to address state) (world.meanwhile disk)

  unfoldable pub after_snapshot : State → Result (Failure Abort) Document → Disk → Ended
  unfolding after_lookup
  after_snapshot state (err e) disk = (err (raised_by e), disk)
  after_snapshot state (ok d) disk = after_lookup state (find_socket d.rooms sid) disk

  unfoldable pub switch_socket : State → Disk → Ended
  unfolding after_snapshot
  switch_socket state disk = after_snapshot state (snapshot lib disk) disk

  unfoldable pub switch_checked : Handled State → Disk → Result Raised Response × Disk
  unfolding respond switch_socket
  switch_checked (err e) disk = (err (raised_by (raised e)), disk)
  switch_checked (ok state) disk = respond (switch_socket state (world.between disk))

  unfoldable pub switch_known :
      Fields → Result (Failure Abort) Document → Disk → Result Raised Response × Disk
  unfolding switch_checked checked_state
  switch_known body (err e) disk = (err (raised_by e), disk)
  switch_known body (ok d) disk = switch_checked (checked_state sid body d) disk

  unfoldable pub switch_body : Handled Fields → Disk → Result Raised Response × Disk
  unfolding switch_known
  switch_body (err e) disk = (err (raised_by (raised e)), disk)
  switch_body (ok body) disk = switch_known body (snapshot lib disk) disk

  -- The route `switch`
  unfoldable pub switch : Bytes → Disk → Result Raised Response × Disk
  unfolding switch_body
  switch raw disk = switch_body (json_body lib true raw) disk
