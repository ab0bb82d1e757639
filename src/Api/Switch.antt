-- ===== src/Api/Switch.antt =====
-- The All-off routes of examples/web/rsswitch_web/api/switch.py and the route of
-- examples/web/rsswitch_web/api/meta.py. The batch gets what rsswitchd, the clock and the store
-- answer as a parameter, and so does the disk after it.
pub mod Laws
use librsswitch.Base.{ℕ, Bool, true, false, List, [], ◌∷◌, Option, none, some}
use librsswitch.Base.Int.{pos}
use librsswitch.Base.Result.{Result, ok, err, ◌>>=◌}
use librsswitch.Base.Text.{Text, text}
use librsswitch.Jsonutil.{Bytes, Stdlib}
use librsswitch.Json.{Value, bool, int, str, arr, obj, Items, nil, cons, Fields, end, field}
use librsswitch.Model.Types.{
  Kind, rev_008345, pollin_2605, SocketType, socket_types, kind_name, LastSent, Document, Room,
}
use librsswitch.Model.Encode.{last_sent_fields}
use librsswitch.Errors.{Abort, Handled, not_found, json_body, reject_unknown_fields}
use librsswitch.Errors.Handlers.{Response, json_response, Raised, raised_by, extra_said}
use librsswitch.Store.Find.{find_room}
use librsswitch.Store.File.{Disk, Failure, raised, snapshot}
use librsswitch.Daemon.{Info}
use librsswitch.Config.Resolve.{
  Settings, daemon_connect_timeout, daemon_read_timeout, all_off_gap_ms,
}
use librsswitch.Switching.{
  Round, Outcome, done, failed, skipped, Entry, Summary, Report, Batch, all_off,
}

-- One item of `dict.items()` of SOCKET_TYPES, as `meta` shows it.
abbrev pub limits_json : Kind → Value
limits_json kind =
    let limits = socket_types kind in
    obj (
      field (text "groups") (int (pos limits.groups))
        (field (text "sockets") (int (pos limits.sockets)) end))

-- `meta`. `add` is `+` of two numbers.
unfoldable pub meta : (Value → Value → Value) → Settings → Value
meta add cfg = obj (
    field (text "socket_types")
      (obj (
        field (kind_name rev_008345) (limits_json rev_008345)
          (field (kind_name pollin_2605) (limits_json pollin_2605) end)))
      (field (text "switch_timeout") (add (cfg daemon_connect_timeout) (cfg daemon_read_timeout))
        (field (text "all_off_gap_ms") (cfg all_off_gap_ms) end)))

-- `dict(info)`
unfoldable pub info_json : Info → Value
info_json info = obj (
    field (text "code") (str info.code)
      (field (text "message") (str info.message) (extra_said info.said)))

-- The keys of `outcome[sid]`.
unfoldable pub outcome_fields : Outcome → Fields
unfolding info_json
outcome_fields (done none) =
    field (text "status") (str (text "ok")) (field (text "recorded") (bool false) end)
outcome_fields (done (some last)) = field (text "status") (str (text "ok")) (
    field (text "recorded") (bool true)
      (field (text "last_sent") (obj (last_sent_fields last)) end))
outcome_fields (failed info) =
    field (text "status") (str (text "error")) (field (text "error") (info_json info) end)
outcome_fields (skipped info) =
    field (text "status") (str (text "skipped")) (field (text "error") (info_json info) end)

unfoldable pub entries_json : List Entry → Items
unfolding outcome_fields
entries_json [] = nil
entries_json ((sid, rid, outcome) ∷ es) =
    cons
      (obj (
        field (text "socket_id") (str sid)
          (field (text "room_id") (str rid) (outcome_fields outcome))))
      (entries_json es)

unfoldable pub report_json : Report → Value
unfolding entries_json
report_json r = obj (
    field (text "ok") (bool r.all_ok) (
      field (text "results") (arr (entries_json r.results)) (
        field (text "summary")
          (obj (
            field (text "ok") (int (pos r.summary.ok_count)) (
              field (text "error") (int (pos r.summary.error_count))
                (field (text "skipped") (int (pos r.summary.skipped_count)) end))))
          end)))

-- The check of the room in the URL, if there is one.
unfoldable pub known_room : Option Text → List Room → Handled (Unit {0})
known_room none rooms = ok tt
known_room (some rid) rooms = elim (find_room rooms rid) [
  | none ↦ err (not_found (text "room not found"))
  | some room ↦ ok tt
]

unfoldable pub report_response : Result (Failure Abort) (Report × Batch) → Result Raised Response
unfolding report_json
report_response (err e) = err (raised_by e)
report_response (ok (report, batch)) = ok (json_response 200 (report_json report))

module _ (rounds : ℕ → Round) (room_id : Option Text) where
  -- What follows the checks: the batch over the document that is read next.
  unfoldable pub batch_response :
      Handled (Unit {0}) → Result (Failure Abort) Document → Result Raised Response
  unfolding report_response
  batch_response (err e) o = err (raised_by (raised e))
  batch_response (ok u) (err e) = err (raised_by e)
  batch_response (ok u) (ok d) = report_response (all_off rounds room_id d)

  -- The check of the room against the first document, where a room is asked for.
  unfoldable pub room_checked :
      Option Text → Result (Failure Abort) Document → Result (Failure Abort) (Unit {0})
  unfolding known_room
  room_checked none o = ok tt
  room_checked (some rid) (err e) = err e
  room_checked (some rid) (ok d) = elim (known_room (some rid) d.rooms) [
    | err e ↦ err (raised e)
    | ok u ↦ ok tt
  ]

  unfoldable pub after_room :
      Result (Failure Abort) (Unit {0})
      → Fields
      → Result (Failure Abort) Document
      → Result Raised Response
  unfolding batch_response
  after_room (err e) body now = err (raised_by e)
  after_room (ok u) body now = batch_response (reject_unknown_fields body []) now

  unfoldable pub after_body :
      Handled Fields
      → Result (Failure Abort) Document
      → Result (Failure Abort) Document
      → Result Raised Response
  unfolding room_checked after_room
  after_body (err e) first now = err (raised_by (raised e))
  after_body (ok body) first now = after_room (room_checked room_id first) body now

  -- `_all_off`: the body, the document that the check reads, and the document that the batch reads.
  unfoldable pub all_off_route :
      Stdlib
      → Bytes
      → Result (Failure Abort) Document
      → Result (Failure Abort) Document
      → Result Raised Response
  unfolding after_body
  all_off_route lib raw first now = after_body (json_body lib false raw) first now
