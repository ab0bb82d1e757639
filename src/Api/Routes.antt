-- ===== src/Api/Routes.antt =====
-- The routes of examples/web/rsswitch_web/api/rooms.py and api/sockets.py as a whole: the checks of
-- the body, the call of the store, and the response or the exception that the handler ends with.
pub mod Good
pub mod Raises
pub mod Functions
pub mod StoreFails
pub mod Statuses
use librsswitch.Base.{ℕ, Bool, true, List, [], ◌∷◌, Option, none, some}
use librsswitch.Base.Result.{Result, ok, err, ◌>>=◌, ◌>>◌}
use librsswitch.Base.Text.{Text, text}
use librsswitch.Jsonutil.{Bytes, Stdlib}
use librsswitch.Json.{Value, obj, Fields, end, field}
use librsswitch.Model.Types.{Document}
use librsswitch.Errors.{
  Abort, api_error, key_error, no_token, Handled, json_body, reject_unknown_fields,
}
use librsswitch.Errors.Handlers.{Response, json_response, Raised, raised_by}
use librsswitch.Store.File.{Disk, Failure, raised, Answers, snapshot, mutate}
use librsswitch.Validation.{Unicode}
use librsswitch.Api.Common.{id_list}
use librsswitch.Api.Rooms
use librsswitch.Api.Sockets

-- How a handler ends, and the disk after it.
abbrev pub Served : Type 0
Served = Result Raised Response × Disk

-- A request of the two blueprints. The bodies are bytes, and `List Text` are the tokens that
-- `new_id` draws.
pub data Call : Type 0 where
  list_rooms : Call
  read_room : Text → Call
  create_room : Bytes → List Text → Call
  edit_room : Text → Bytes → Call
  delete_room : Text → Call
  order_rooms : Bytes → Call
  read_socket : Text → Call
  create_socket : Text → Bytes → List Text → Call
  edit_socket : Text → Bytes → Call
  delete_socket : Text → Call
  order_sockets : Text → Bytes → Call

-- {key: value}
abbrev pub keyed : Text → Value → Value
keyed key value = obj (field key value end)

-- What follows `mutate`: the response, by its result.
unfoldable pub answer : {A : Type 0} → (A → Response) → Result (Failure Abort) A × Disk → Served
answer respond (ok a, disk) = (ok (respond a), disk)
answer respond (err e, disk) = (err (raised_by e), disk)

abbrev pub no_content : Unit {0} → Response
no_content _ = record { status = 204; body = none; headers = [] }

-- A handler that raises before it calls the store, or calls it.
unfoldable pub checked_then : {A : Type 0} → Handled A → Disk → (A → Served) → Served
checked_then (err e) disk next = (err (raised_by (raised e)), disk)
checked_then (ok a) disk next = next a

-- A handler that reads the document.
unfoldable pub read_with :
    (Document → Handled Value) → Disk → Result (Failure Abort) Document → Served
read_with view disk (err e) = (err (raised_by e), disk)
read_with view disk (ok d) = checked_then (view d) disk (λ v. (ok (json_response 200 v), disk))

module _ (lib : Stdlib) where
  unfoldable pub reading : (Document → Handled Value) → Disk → Served
  unfolding read_with checked_then
  reading view disk = read_with view disk (snapshot lib disk)

  -- `state().store.mutate(fn)` and the response
  unfoldable pub changing :
      {A : Type 0} → (Document → Handled (A × Document)) → (A → Response) → Answers → Disk → Served
  unfolding answer
  changing fn respond sys disk = answer respond (mutate lib fn sys disk)

  -- The checks of the body before `mutate`.
  unfoldable pub room_body : Bytes → Handled Fields
  room_body raw = do
    body ← json_body lib true raw
    reject_unknown_fields body (text "name" ∷ [])
    ok body

  unfoldable pub ids_body : Bytes → Handled (List Text)
  ids_body raw = do
    body ← json_body lib true raw
    reject_unknown_fields body (text "ids" ∷ [])
    id_list body

  module _ (u : Unicode) where
    unfoldable pub serve : Call → Answers → Disk → Served
    unfolding reading changing room_body ids_body checked_then
    serve list_rooms sys disk = reading (λ d. ok (Rooms.list_rooms d)) disk
    serve (read_room rid) sys disk = reading (λ d. Rooms.read_room d rid) disk
    serve (create_room raw tokens) sys disk = checked_then (room_body raw) disk (λ body.
        changing (Rooms.create u body tokens) (λ v. json_response 201 (keyed (text "room") v)) sys
          disk)
    serve (edit_room rid raw) sys disk = checked_then (json_body lib true raw) disk (λ body.
        changing (Rooms.edit u rid body) (λ v. json_response 200 (keyed (text "room") v)) sys disk)
    serve (delete_room rid) sys disk = changing (Rooms.delete rid) no_content sys disk
    serve (order_rooms raw) sys disk =
        checked_then (ids_body raw) disk (λ ids.
          changing (Rooms.order ids) (λ v. json_response 200 (keyed (text "ids") v)) sys disk)
    serve (read_socket sid) sys disk = reading (λ d. Sockets.read_socket d sid) disk
    serve (create_socket rid raw tokens) sys disk =
        checked_then (json_body lib true raw) disk
          (λ body. changing (Sockets.create u rid body tokens) (json_response 201) sys disk)
    serve (edit_socket sid raw) sys disk =
        checked_then (json_body lib true raw) disk
          (λ body. changing (Sockets.edit u sid body) (json_response 200) sys disk)
    serve (delete_socket sid) sys disk = changing (Sockets.delete sid) no_content sys disk
    serve (order_sockets rid raw) sys disk = checked_then (json_body lib true raw) disk (λ body.
        changing (Sockets.order rid body) (λ v. json_response 200 (keyed (text "ids") v)) sys disk)

    -- The disk after requests, each with what the system calls answer in it.
    unfoldable pub run : List (Call × Answers) → Disk → Disk
    unfolding serve
    run [] disk = disk
    run ((call, sys) ∷ calls) disk = run calls (serve call sys disk).1
