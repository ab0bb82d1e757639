-- ===== src/Tests/Commands.antt =====
-- Runs of the daemon client and of All-off.
use librsswitch.Base.{
  if◌then◌else◌, ◌==◌ as nat_eq, ℕ, ◌≤◌, ◌≡◌, refl, List, [], ◌∷◌, Option, none, some, map, length,
  All,
}
use librsswitch.Base.Result.{ok, ◌>>=◌}
use librsswitch.Base.Text.{Text, text, ◌==◌}
use librsswitch.Store.Record.{same_address, same_kind}
use librsswitch.Model.Types.{Socket}
use librsswitch.Daemon.{
  max_message, DaemonError, timed_out, daemon_error_info, ends_batch, chunk, Peer, connected,
  sent_all, reply_fuel, line_of, without_cr, decode_ascii, accept_line, received, read_line,
  outcome_of, read_reply, outcome_with, exchange, sanitize,
}
use librsswitch.Daemon.Reply.{sanitize-bounds, exchange-ends, exchange-done}
use librsswitch.Switching.{
  Round, failed, Batch, Entry, Report, add_member, members_from, members_of, assign_all, after_send,
  started, turn, turns, no_batch, finish,
}
use librsswitch.Switching.Results.{ids_of_entry, ids_of_socket, finish-members_of}
use librsswitch.Errors.{json_body, parse_body, get_data, is_blank, reject_unknown_fields}
use librsswitch.Errors.Handlers.{Response}
use librsswitch.Model.Check.{first_unknown}
use librsswitch.Switching.{
  all_off, chosen, batch_over, sockets_in, in_room, finish_with, entries_of, outcome_at,
}
use librsswitch.Api.Switch.{
  all_off_route, after_body, after_room, room_checked, batch_response, report_response,
}
use librsswitch.Api.Switch.Laws.{Reports, all_off_route-Reports}
use librsswitch.Tests.Data.{lamp, heater, kitchen, home, one_document}

-- A daemon that answers "OK\r\n" in two pieces.
abbrev friendly : Peer
friendly = record {
  connect = connected;
  deadline = 9;
  write = sent_all;
  passes = λ i. record {
    now = i;
    answer = chunk (if nat_eq i 0 then b'O' ∷ [] else b'K' ∷ b'\r' ∷ b'\n' ∷ []);
  };
}

friendly_done : exchange friendly ≡ some none
unfolding exchange outcome_with read_reply outcome_of read_line received accept_line line_of
    without_cr decode_ascii text ◌==◌
friendly_done = refl

exchange-done_example :
    (friendly.connect ≡ connected)
    × (friendly.write ≡ sent_all)
    × (read_line friendly.passes friendly.deadline reply_fuel 0 [] ≡ some (ok (text "OK")))
exchange-done_example = exchange-done friendly friendly_done

exchange-ends_example : (e : Option DaemonError) × (exchange friendly ≡ some e)
exchange-ends_example = exchange-ends friendly

sanitize-bounds_example :
    All (λ c. (32 ≤ c) × (c ≤ 126)) (sanitize (7 ∷ b'a' ∷ []))
    × (length (sanitize (7 ∷ b'a' ∷ [])) ≤ max_message)
sanitize-bounds_example = sanitize-bounds (7 ∷ b'a' ∷ [])

-- The first command times out.
abbrev dead : ℕ → Round
dead i = record { send = some timed_out; at = []; stored = ok [] }

abbrev plugs : List (Text × Socket)
plugs = (kitchen.id, lamp) ∷ (kitchen.id, heater) ∷ []

dead_turns : (b : Batch) × (turns dead (members_of plugs) no_batch ≡ ok b)
unfolding turns turn started after_send assign_all members_from add_member same_address same_kind
    ends_batch ◌>>=◌
dead_turns = (_, refl)

finish-members_of_example :
    (r : Report) × (finish plugs dead_turns.0 ≡ ok (r, dead_turns.0))
    × (map ids_of_entry r.results ≡ map ids_of_socket plugs)
finish-members_of_example = finish-members_of dead plugs dead_turns.0 dead_turns.1

abbrev one_failure : List Entry
one_failure = (lamp.id, kitchen.id, failed (daemon_error_info timed_out)) ∷ []

-- An All-off of the household with an empty body.
all_off_answered :
    (response : Response) × (all_off_route dead none one_document [] (ok home) (ok home)
      ≡ ok response)
unfolding all_off_route after_body after_room room_checked batch_response report_response all_off
    chosen batch_over sockets_in in_room json_body parse_body get_data is_blank
    reject_unknown_fields first_unknown turns turn started after_send assign_all members_from
    add_member same_address same_kind finish finish_with entries_of outcome_at ◌==◌ ◌>>=◌ ends_batch
all_off_answered = (_, refl)

all_off_route-Reports_example : Reports dead none (ok home) all_off_answered.0
all_off_route-Reports_example =
    all_off_route-Reports dead none one_document [] (ok home) (ok home) all_off_answered.0
      all_off_answered.1
