-- ===== src/Api/Routes/Statuses.antt =====
-- The statuses that the room and socket routes answer with.

use librsswitch.Base.{◌≡◌, refl, ℕ, Bool, true, ◌||◌, ◌==◌ as nat_eq, arith}
use librsswitch.Base.Result.{Result, ok, err}
use librsswitch.Base.Text.{Text}
use librsswitch.Jsonutil.{Stdlib}
use librsswitch.Json.{Value}
use librsswitch.Model.Types.{Document}
use librsswitch.Errors.{Abort, api_error, http_error, key_error, no_token, Handled, json_body}
use librsswitch.Errors.Handlers.{
  Response, Raised, api, store_failed, daemon_failed, http_failed, unexpected, raised_by, handle,
  handle_api_error, handle_store_error, handle_unexpected, handle_http_exception, error_response,
}
use librsswitch.Store.File.{Disk, Failure, store_error, os_error, raised, Answers, snapshot, mutate}
use librsswitch.Validation.{Unicode}
use librsswitch.Api.Rooms
use librsswitch.Api.Sockets
use librsswitch.App.{respond}
use librsswitch.Api.Routes.{
  Served, Call, list_rooms, read_room, create_room, edit_room, delete_room, order_rooms,
  read_socket, create_socket, edit_socket, delete_socket, order_sockets, no_content, answer,
  checked_then, read_with, reading, changing, room_body, ids_body, serve,
}
use librsswitch.Api.Routes.Raises.{is_client_error, Raises}
use librsswitch.Api.Routes.Functions.{
  json_body-Raises, room_body-Raises, ids_body-Raises, create_room-Raises, edit_room-Raises,
  delete_room-Raises, order_rooms-Raises, create_socket-Raises, edit_socket-Raises,
  delete_socket-Raises, order_sockets-Raises, read_room-Raises, read_socket-Raises,
}
use librsswitch.Api.Routes.StoreFails.{Fails, snapshot-Fails, mutate-Fails}

-- 2xx of the routes, the errors that a client can mend, and 500.
abbrev pub is_documented : ℕ → Bool
is_documented n =
    nat_eq n 200
    || nat_eq n 201
    || nat_eq n 204
    || nat_eq n 413
    || nat_eq n 500
    || is_client_error n

-- A call that ends in an answer with a documented status, or in an exception that has one.
abbrev Answered : Result Raised Response → Type 0
Answered (ok r) = is_documented r.status ≡ true
Answered (err (api e)) = is_client_error e.status ≡ true
Answered (err store_failed) = Unit {0}
Answered (err unexpected) = Unit {0}
Answered (err (daemon_failed e)) = ⊥
Answered (err (http_failed e)) = e.code ≡ 413

raised_by-Answered :
    (e : Failure Abort) → Fails {A = Unit {0}} (err e) → Answered (err (raised_by e))
unfolding raised_by
raised_by-Answered store_error h = tt
raised_by-Answered os_error h = tt
raised_by-Answered (raised (api_error e)) h = h
raised_by-Answered (raised (http_error e)) h = h
raised_by-Answered (raised key_error) h = tt
raised_by-Answered (raised no_token) h = tt

is_client-documented : (n : ℕ) → is_client_error n ≡ true → is_documented n ≡ true
is_client-documented n h = ground arith

respond-documented :
    (lower : Text → Text) (r : Result Raised Response) (disk : Disk)
    → Answered r
    → is_documented (respond lower (r, disk)).0.status ≡ true
unfolding respond handle handle_api_error handle_store_error handle_unexpected handle_http_exception
    error_response
respond-documented lower (ok r) disk h = h
respond-documented lower (err (api e)) disk h = is_client-documented e.status h
respond-documented lower (err store_failed) disk h = refl
respond-documented lower (err unexpected) disk h = refl
respond-documented lower (err (daemon_failed e)) disk h = absurd h
respond-documented lower (err (http_failed e)) disk h = ground arith

answer-Answered :
    {A : Type 0} (respond_with : A → Response) (r : Result (Failure Abort) A × Disk)
    → Fails r.0
    → ((a : A) → is_documented (respond_with a).status ≡ true)
    → Answered (answer respond_with r).0
unfolding answer
answer-Answered respond_with (ok a, disk) hf h = h a
answer-Answered respond_with (err store_error, disk) hf h = raised_by-Answered store_error hf
answer-Answered respond_with (err os_error, disk) hf h = raised_by-Answered os_error hf
answer-Answered respond_with (err (raised e), disk) hf h = raised_by-Answered (raised e) hf

module _ (lib : Stdlib) where
  module _ {A : Type 0} (fn : Document → Handled (A × Document))
      (raises : (d : Document) → Raises (fn d)) where
    changing-Answered :
        (respond_with : A → Response) (sys : Answers) (disk : Disk)
        → ((a : A) → is_documented (respond_with a).status ≡ true)
        → Answered (changing lib fn respond_with sys disk).0
    unfolding changing
    changing-Answered respond_with sys disk h =
        answer-Answered respond_with (mutate lib fn sys disk) (mutate-Fails lib fn raises sys disk)
          h

  checked_then-Answered :
      {A : Type 0} (o : Handled A) (disk : Disk) (next : A → Served)
      → Raises o
      → ((a : A) → Answered (next a).0)
      → Answered (checked_then o disk next).0
  unfolding checked_then
  checked_then-Answered (err e) disk next hr h = raised_by-Answered (raised e) hr
  checked_then-Answered (ok a) disk next hr h = h a

  read_with-Answered :
      (view : Document → Handled Value) (disk : Disk) (o : Result (Failure Abort) Document)
      → ((d : Document) → Raises (view d))
      → Fails o
      → Answered (read_with view disk o).0
  unfolding read_with
  read_with-Answered view disk (ok d) hv h =
      checked_then-Answered (view d) disk _ (hv d) (λ v. refl)
  read_with-Answered view disk (err store_error) hv h = raised_by-Answered store_error h
  read_with-Answered view disk (err os_error) hv h = raised_by-Answered os_error h
  read_with-Answered view disk (err (raised e)) hv h = raised_by-Answered (raised e) h

  reading-Answered :
      (view : Document → Handled Value) (disk : Disk)
      → ((d : Document) → Raises (view d))
      → Answered (reading lib view disk).0
  unfolding reading
  reading-Answered view disk hv =
      read_with-Answered view disk (snapshot lib disk) hv (snapshot-Fails lib disk)

  module _ (u : Unicode) (limit : lib.too_large.code ≡ 413) where
    serve-Answered :
        (call : Call) (sys : Answers) (disk : Disk) → Answered (serve lib u call sys disk).0
    unfolding serve
    serve-Answered list_rooms sys disk =
        reading-Answered (λ d. ok (Rooms.list_rooms d)) disk (λ d. tt)
    serve-Answered (read_room rid) sys disk =
        reading-Answered (λ d. Rooms.read_room d rid) disk (λ d. read_room-Raises d rid)
    serve-Answered (create_room raw tokens) sys disk =
        checked_then-Answered (room_body lib raw) disk _ (room_body-Raises lib raw limit) (λ body.
          changing-Answered (Rooms.create u body tokens) (create_room-Raises u body tokens) _ sys
            disk (λ v. refl))
    serve-Answered (edit_room rid raw) sys disk =
        checked_then-Answered (json_body lib true raw) disk _ (json_body-Raises lib true raw limit)
          (λ body.
            changing-Answered (Rooms.edit u rid body) (edit_room-Raises u rid body) _ sys disk
              (λ v. refl))
    serve-Answered (delete_room rid) sys disk =
        changing-Answered (Rooms.delete rid) (delete_room-Raises rid) no_content sys disk
          (λ v. refl)
    serve-Answered (order_rooms raw) sys disk =
        checked_then-Answered (ids_body lib raw) disk _ (ids_body-Raises lib raw limit) (λ ids.
          changing-Answered (Rooms.order ids) (order_rooms-Raises ids) _ sys disk (λ v. refl))
    serve-Answered (read_socket sid) sys disk =
        reading-Answered (λ d. Sockets.read_socket d sid) disk (λ d. read_socket-Raises d sid)
    serve-Answered (create_socket rid raw tokens) sys disk =
        checked_then-Answered (json_body lib true raw) disk _ (json_body-Raises lib true raw limit)
          (λ body.
            changing-Answered (Sockets.create u rid body tokens)
              (create_socket-Raises u rid body tokens) _ sys disk (λ v. refl))
    serve-Answered (edit_socket sid raw) sys disk =
        checked_then-Answered (json_body lib true raw) disk _ (json_body-Raises lib true raw limit)
          (λ body.
            changing-Answered (Sockets.edit u sid body) (edit_socket-Raises u sid body) _ sys disk
              (λ v. refl))
    serve-Answered (delete_socket sid) sys disk =
        changing-Answered (Sockets.delete sid) (delete_socket-Raises sid) no_content sys disk
          (λ v. refl)
    serve-Answered (order_sockets rid raw) sys disk =
        checked_then-Answered (json_body lib true raw) disk _ (json_body-Raises lib true raw limit)
          (λ body.
            changing-Answered (Sockets.order rid body) (order_sockets-Raises rid body) _ sys disk
              (λ v. refl))

    -- Whatever is asked of the rooms and sockets, in whatever body, and whatever the system calls answer:
    -- the status of the answer, that of an error handler included, is 200, 201, 204, 400, 404, 409,
    -- 413, 422 or 500. The code of Werkzeug's RequestEntityTooLarge has to be 413.
    pub serve_documented :
        (lower : Text → Text) (call : Call) (sys : Answers) (disk : Disk)
        → is_documented (respond lower (serve lib u call sys disk)).0.status ≡ true
    serve_documented lower call sys disk =
        let (r, after) = serve lib u call sys disk in
        respond-documented lower r after (serve-Answered call sys disk)
