-- ===== src/Api/Routes/Good.antt =====
-- The routes leave a data file that can be loaded, whatever is asked and in whatever order.
use librsswitch.Base.{◌≡◌, true, List, [], ◌∷◌, All}
use librsswitch.Base.Result.{Result, ok, err}
use librsswitch.Jsonutil.{Stdlib}
use librsswitch.Json.{Value}
use librsswitch.Model.Types.{Document}
use librsswitch.Model.Valid.{IsValid}
use librsswitch.Errors.{Abort, Handled, json_body}
use librsswitch.Errors.Handlers.{Response}
use librsswitch.Store.File.{Disk, Failure, Answers, mutate, snapshot}
use librsswitch.Store.File.Write.{Codec}
use librsswitch.Store.File.Keeps.{Loads, mutate-Loads}
use librsswitch.Validation.{Unicode}
use librsswitch.Api.Common.NewId.{IsToken}
use librsswitch.Api.Rooms.Valid.{create_room-IsValid, edit_room-IsValid, delete_room-IsValid}
use librsswitch.Api.Rooms.Order.{order_rooms-IsValid}
use librsswitch.Api.Sockets.Valid.{
  create_socket-IsValid, delete_socket-IsValid, order_sockets-IsValid,
}
use librsswitch.Api.Sockets.Edit.{edit_socket-IsValid}
use librsswitch.Api.Rooms
use librsswitch.Api.Sockets
use librsswitch.Api.Routes.{
  Served, Call, list_rooms, read_room, create_room, edit_room, delete_room, order_rooms,
  read_socket, create_socket, edit_socket, delete_socket, order_sockets, answer, checked_then,
  read_with, reading, changing, room_body, ids_body, serve, run,
}

-- The tokens that a call draws have the form that `token_hex` gives them.
abbrev pub DrawsTokens : Call → Type 0
DrawsTokens (create_room raw tokens) = All IsToken tokens
DrawsTokens (create_socket rid raw tokens) = All IsToken tokens
DrawsTokens _ = Unit {0}

module _ (lib : Stdlib) where
  abbrev Good : Served → Type 0
  Good served = Loads lib Abort served.1

  checked_then-Loads :
      {A : Type 0} (o : Handled A) (disk : Disk) (next : A → Served)
      → Loads lib Abort disk
      → ((a : A) → Good (next a))
      → Good (checked_then o disk next)
  unfolding checked_then
  checked_then-Loads (err e) disk next loads h = loads
  checked_then-Loads (ok a) disk next loads h = h a

  read_with-Loads :
      (view : Document → Handled Value) (disk : Disk) (o : Result (Failure Abort) Document)
      → Loads lib Abort disk
      → Good (read_with view disk o)
  unfolding read_with
  read_with-Loads view disk (err e) loads = loads
  read_with-Loads view disk (ok d) loads = checked_then-Loads (view d) disk _ loads (λ v. loads)

  reading-Loads :
      (view : Document → Handled Value) (disk : Disk)
      → Loads lib Abort disk
      → Good (reading lib view disk)
  unfolding reading
  reading-Loads view disk loads = read_with-Loads view disk (snapshot lib disk) loads

  answer-Loads :
      {A : Type 0} (respond : A → Response) (r : Result (Failure Abort) A × Disk)
      → Loads lib Abort r.1
      → Good (answer respond r)
  unfolding answer
  answer-Loads respond (ok a, disk) loads = loads
  answer-Loads respond (err e, disk) loads = loads

  module _ (codec : Codec lib) where
    changing-Loads :
        {A : Type 0} (fn : Document → Handled (A × Document)) (respond : A → Response)
        (sys : Answers) (disk : Disk)
        → ((d d' : Document) (a : A) → IsValid d → fn d ≡ ok (a, d') → IsValid d')
        → Loads lib Abort disk
        → Good (changing lib fn respond sys disk)
    unfolding changing
    changing-Loads fn respond sys disk keeps loads = answer-Loads respond (mutate lib fn sys disk) (
        mutate-Loads lib Abort fn sys disk
          (λ d d' a valid h. (keeps d d' a valid h, codec d' (keeps d d' a valid h))) loads)

    module _ (u : Unicode) where
      -- Whatever is asked and whatever the system calls answer, a route leaves a data file that can be
      -- loaded, where it found one. The standard library has to read back every document that it
      -- writes, and `token_hex` to give tokens of its form.
      pub serve-Loads :
          (call : Call) (sys : Answers) (disk : Disk)
          → DrawsTokens call
          → Loads lib Abort disk
          → Loads lib Abort (serve lib u call sys disk).1
      unfolding serve
      serve-Loads list_rooms sys disk drawn loads =
          reading-Loads (λ d. ok (Rooms.list_rooms d)) disk loads
      serve-Loads (read_room rid) sys disk drawn loads =
          reading-Loads (λ d. Rooms.read_room d rid) disk loads
      serve-Loads (create_room raw tokens) sys disk drawn loads =
          checked_then-Loads (room_body lib raw) disk _ loads (λ body.
            changing-Loads (Rooms.create u body tokens) _ sys disk
              (λ d d' v. create_room-IsValid u body tokens d d' v drawn) loads)
      serve-Loads (edit_room rid raw) sys disk drawn loads =
          checked_then-Loads (json_body lib true raw) disk _ loads (λ body.
            changing-Loads (Rooms.edit u rid body) _ sys disk (edit_room-IsValid u rid body) loads)
      serve-Loads (delete_room rid) sys disk drawn loads =
          changing-Loads (Rooms.delete rid) _ sys disk (λ d d' v. delete_room-IsValid rid d d')
            loads
      serve-Loads (order_rooms raw) sys disk drawn loads =
          checked_then-Loads (ids_body lib raw) disk _ loads
            (λ ids. changing-Loads (Rooms.order ids) _ sys disk (order_rooms-IsValid ids) loads)
      serve-Loads (read_socket sid) sys disk drawn loads =
          reading-Loads (λ d. Sockets.read_socket d sid) disk loads
      serve-Loads (create_socket rid raw tokens) sys disk drawn loads =
          checked_then-Loads (json_body lib true raw) disk _ loads (λ body.
            changing-Loads (Sockets.create u rid body tokens) _ sys disk
              (λ d d' v. create_socket-IsValid u rid body tokens d d' v drawn) loads)
      serve-Loads (edit_socket sid raw) sys disk drawn loads =
          checked_then-Loads (json_body lib true raw) disk _ loads (λ body.
            changing-Loads (Sockets.edit u sid body) _ sys disk
              (λ d d' v h e. (edit_socket-IsValid u sid body d d' v h e).0) loads)
      serve-Loads (delete_socket sid) sys disk drawn loads =
          changing-Loads (Sockets.delete sid) _ sys disk (λ d d' v. delete_socket-IsValid sid d d')
            loads
      serve-Loads (order_sockets rid raw) sys disk drawn loads =
          checked_then-Loads (json_body lib true raw) disk _ loads (λ body.
            changing-Loads (Sockets.order rid body) _ sys disk (order_sockets-IsValid rid body)
              loads)

      -- After any sequence of requests, with any answers of the system calls, the data file can be
      -- loaded, where it could be before. The standard library has to read back every document that
      -- it writes, and `token_hex` to give tokens of its form.
      pub run-Loads :
          (calls : List (Call × Answers)) (disk : Disk)
          → All (λ c. DrawsTokens c.0) calls
          → Loads lib Abort disk
          → Loads lib Abort (run lib u calls disk)
      unfolding run
      run-Loads [] disk drawn loads = loads
      run-Loads ((call, sys) ∷ calls) disk drawn loads =
          run-Loads calls _ drawn.1 (serve-Loads call sys disk drawn.0 loads)
