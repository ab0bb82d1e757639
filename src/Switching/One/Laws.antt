-- ===== src/Switching/One/Laws.antt =====
-- What switch_socket promises.
use librsswitch.Base.{arith, ◌≡◌, ◌≢◌, true, refl, ap, ◌∙◌, ℕ, List, [], ◌∷◌, Option, none, some}
use librsswitch.Base.Result.{Result, ok, err}
use librsswitch.Base.Text.{Text}
use librsswitch.Jsonutil.{Stdlib}
use librsswitch.Model.Types.{State, Socket, Room, Document}
use librsswitch.Errors.{Abort}
use librsswitch.Errors.Handlers.{daemon_failed}
use librsswitch.Daemon.{DaemonError}
use librsswitch.Store.Find.{find_socket}
use librsswitch.Store.Find.Laws.{socket_at}
use librsswitch.Store.Record.{Address, address_of}
use librsswitch.Store.Record.One.{record_ids_one}
use librsswitch.Store.File.{Disk, Failure, store_error, os_error, raised, load, snapshot}
use librsswitch.Store.File.Write.{Codec}
use librsswitch.Store.File.Keeps.{Loads}
use librsswitch.Store.File.Fails.{OnlyStoreError}
use librsswitch.Store.LastSent.{record_last_sent}
use librsswitch.Store.LastSent.Stored.{
  record_last_sent-Loads, record_last_sent-OnlyStoreError, snapshot-record_last_sent,
}
use librsswitch.Switching.{recorded}
use librsswitch.Switching.One.{
  World, Switched, is_written, after_record, after_ok, after_answer, send_to, after_lookup,
  after_snapshot, switch_socket,
}

-- Other requests leave a data file that can be loaded.
abbrev pub OthersKeep : Stdlib → World → Type 0
OthersKeep lib w =
    ((disk : Disk) → Loads lib Abort disk → Loads lib Abort (w.meanwhile disk))
    × ((disk : Disk) → Loads lib Abort disk → Loads lib Abort (w.afterwards disk))

store_error≢os_error : ◌≢◌ {A = Failure Abort} os_error store_error
store_error≢os_error h = cc

store_error≢raised : (x : Abort) → ◌≢◌ {A = Failure Abort} (raised x) store_error
store_error≢raised x h = cc

not_written : (ids : List Text) → ids ≡ [] → is_written ids ≢ true
unfolding is_written
not_written [] e h = cc
not_written (i ∷ is) e h = cc

module _ (lib : Stdlib) (parse_time : Text → Option ℕ) (world : World) (sid : Text) where
  after_record-Loads :
      (r : Result (Failure Abort) (List Text)) (disk : Disk)
      → OthersKeep lib world
      → Loads lib Abort disk
      → Loads lib Abort (after_record lib parse_time world sid r disk).1
  unfolding after_record
  after_record-Loads (err e) disk others loads = loads
  after_record-Loads (ok written) disk others loads = others.1 disk loads

  module _ (state : State) where
    after_answer-Loads :
        (address : Address) (o : Option DaemonError) (disk : Disk)
        → Codec lib
        → OthersKeep lib world
        → Loads lib Abort disk
        → Loads lib Abort (after_answer lib parse_time world sid address state o disk).1
    unfolding after_answer after_ok
    after_answer-Loads address (some e) disk codec others loads = loads
    after_answer-Loads address none disk codec others loads = after_record-Loads _ _ others (
        record_last_sent-Loads lib parse_time (sid ∷ []) address state world.at world.sys disk codec
          loads)

    after_lookup-Loads :
        (o : Option (Room × Socket)) (disk : Disk)
        → Codec lib
        → OthersKeep lib world
        → Loads lib Abort disk
        → Loads lib Abort (after_lookup lib parse_time world sid state o disk).1
    unfolding after_lookup
    after_lookup-Loads none disk codec others loads = loads
    after_lookup-Loads (some (room, s)) disk codec others loads =
        after_answer-Loads _ _ _ codec others (others.0 disk loads)

    after_snapshot-Loads :
        (o : Result (Failure Abort) Document) (disk : Disk)
        → Codec lib
        → OthersKeep lib world
        → Loads lib Abort disk
        → Loads lib Abort (after_snapshot lib parse_time world sid state o disk).1
    unfolding after_snapshot
    after_snapshot-Loads (err e) disk codec others loads = loads
    after_snapshot-Loads (ok d) disk codec others loads =
        after_lookup-Loads (find_socket d.rooms sid) disk codec others loads

    -- Switching a socket leaves a data file that can be loaded, where it found one, where other
    -- requests do so too, and where the standard library reads back every document that it writes.
    pub switch_socket-Loads :
        (disk : Disk)
        → Codec lib
        → OthersKeep lib world
        → Loads lib Abort disk
        → Loads lib Abort (switch_socket lib parse_time world sid state disk).1
    unfolding switch_socket
    switch_socket-Loads disk = after_snapshot-Loads (snapshot lib disk) disk

    after_answer_sent :
        (address : Address) (o : Option DaemonError) (disk : Disk) (a : Switched) (after : Disk)
        → after_answer lib parse_time world sid address state o disk ≡ (ok a, after)
        → after_ok lib parse_time world sid address state disk ≡ (ok a, after)
    unfolding after_answer
    after_answer_sent address none disk a after h = h
    after_answer_sent address (some e) disk a after h = ground arith

    after_record_answers :
        (r : Result (Failure Abort) (List Text)) (disk : Disk)
        → OnlyStoreError lib r
        → (a : Switched) × ((after_record lib parse_time world sid (recorded r) disk).0 ≡ ok a)
    unfolding after_record recorded
    after_record_answers (ok written) disk only = (_, refl)
    after_record_answers (err store_error) disk only = (_, refl)
    after_record_answers (err os_error) disk only =
        absurd (store_error≢os_error (only os_error refl))
    after_record_answers (err (raised x)) disk only =
        absurd (store_error≢raised x (only (raised x) refl))

    -- Where the socket is found, a command that fails at rsswitchd raises its error and is not
    -- recorded: the disk is as other requests have made it while the command was on its way.
    pub switch_socket_refused :
        (d : Document) (room : Room) (s : Socket) (disk : Disk) (e : DaemonError)
        → snapshot lib {E = Abort} disk ≡ ok d
        → find_socket d.rooms sid ≡ some (room, s)
        → send_to lib parse_time world sid (address_of s) state ≡ some e
        → switch_socket lib parse_time world sid state disk
          ≡ (err (daemon_failed e), world.meanwhile disk)
    unfolding switch_socket after_snapshot after_lookup after_answer
    switch_socket_refused d room s disk e read found refused = ground arith

    -- Where the socket is found and rsswitchd has confirmed the command, the call returns an answer,
    -- whatever the store does, where a temporary file can be removed.
    pub switch_socket_confirmed :
        (d : Document) (room : Room) (s : Socket) (disk : Disk)
        → world.sys.unlink ≡ true
        → snapshot lib {E = Abort} disk ≡ ok d
        → find_socket d.rooms sid ≡ some (room, s)
        → send_to lib parse_time world sid (address_of s) state ≡ none
        → (a : Switched) × ((switch_socket lib parse_time world sid state disk).0 ≡ ok a)
    unfolding switch_socket after_snapshot after_lookup after_answer after_ok
    switch_socket_confirmed d room s disk removed read found sent =
        let stored =
          record_last_sent parse_time (sid ∷ []) (address_of s) state world.at lib world.sys
            (world.meanwhile disk) in
        let (a, answered) = after_record_answers stored.0 stored.1 (λ e.
          record_last_sent-OnlyStoreError lib parse_time (sid ∷ []) (address_of s) state world.at
            world.sys (world.meanwhile disk) e removed) in
        (a, ground arith)

    recorded_true :
        (r : Result (Failure Abort) (List Text)) (disk after : Disk) (a : Switched)
        → after_record lib parse_time world sid (recorded r) disk ≡ (ok a, after)
        → a.recorded ≡ true
        → (written : List Text) × (r ≡ ok written)
          × (is_written written ≡ true)
          × (after ≡ world.afterwards disk)
    unfolding after_record recorded is_written
    recorded_true (ok written) disk after a h e = (written, refl, ground arith, ground arith)
    recorded_true (err store_error) disk after a h e = ground arith
    recorded_true (err os_error) disk after a h e = ground arith
    recorded_true (err (raised x)) disk after a h e = ground arith

    -- An answer that says recorded is true: the document on the disk right after the record holds the
    -- socket, with the address that the command was sent to, and with the command as its last_sent.
    -- The data file is to be one that can be loaded when the answer of rsswitchd arrives, and the
    -- standard library to read back what it writes.
    pub switch_socket_recorded :
        (d d' : Document) (room : Room) (s : Socket) (disk after : Disk) (a : Switched)
        → Codec lib
        → snapshot lib {E = Abort} disk ≡ ok d
        → find_socket d.rooms sid ≡ some (room, s)
        → load lib {E = Abort} (world.meanwhile disk) ≡ ok d'
        → switch_socket lib parse_time world sid state disk ≡ (ok a, after)
        → a.recorded ≡ true
        → (mid : Disk) × (now : Document) × (t : Socket) × (after ≡ world.afterwards mid)
          × (snapshot lib {E = Abort} mid ≡ ok now)
          × (socket_at now.rooms sid ≡ some t)
          × (t.last_sent ≡ some (record { state = state; at = world.at }))
          × (address_of t ≡ address_of s)
    unfolding switch_socket after_snapshot after_lookup after_ok
    switch_socket_recorded d d' room s disk after a codec read found loaded h e =
        let address = address_of s in
        let stored =
          record_last_sent parse_time (sid ∷ []) address state world.at lib world.sys
            (world.meanwhile disk) in
        let answered : after_answer lib parse_time world sid address state
              (send_to lib parse_time world sid address state) (world.meanwhile disk)
            ≡ (ok a, after) =
          ground arith in
        let (written, returned, some_written, last) =
          recorded_true stored.0 stored.1 after a (after_answer_sent address _ _ a after answered)
            e in
        let (same, now) =
          snapshot-record_last_sent lib parse_time (sid ∷ []) address state world.at world.sys
            (world.meanwhile disk) stored.1 d' written codec loaded
            (ap (λ (r : Result (Failure Abort) (List Text)). (r, stored.1)) returned) in
        let (t, there, sent, where_sent) =
          record_ids_one parse_time address state world.at sid d'.rooms
            (λ empty. not_written written (same ∙ empty) some_written) in
        (stored.1, _, t, last, now, there, sent, where_sent)
