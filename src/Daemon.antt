-- ===== src/Daemon.antt =====
-- The client of rsswitchd of examples/web/rsswitch_web/daemon.py, and the error objects that
-- examples/web/rsswitch_web/errors.py makes of its errors. What the sockets answer is a parameter.
-- Bytes are their values, and the reply is a text.
pub mod Line
pub mod Reply
use librsswitch.Base.{
  ℕ, zero, suc, ◌+◌, ◌-◌, Bool, true, false, not, ◌&&◌, ◌||◌, List, [], ◌∷◌, ◌++◌, Option, none,
  some, length, take, ltb, leb, ◌==◌ as nat_eq, if◌then◌else◌,
}
use librsswitch.Base.Int.{ℤ, pos, negsuc}
use librsswitch.Base.Result.{Result, ok, err, ◌>>=◌, ◌>>◌, raise_if}
use librsswitch.Base.Text.{Text, text, ◌==◌, decimal}
use librsswitch.Json.{Value, int}
pub use librsswitch.Daemon.Line.{
  Broken, Pass, Received, max_reply, reply_fuel, chunk, recv_timeout, recv_error, too_late,
  os_failure, no_reply, too_long,
}
unfoldable pub use librsswitch.Daemon.Line.{
  accept_line, decode_ascii, line_of, read_line, received, without_cr,
}

abbrev pub max_message : ℕ
max_message = 128

-- The subclasses of DaemonError.
pub data DaemonError : Type 0 where
  unreachable timed_out protocol_error : DaemonError
  reply_error : Text → Text → DaemonError

-- `e.code`
unfoldable pub code : DaemonError → Text
code unreachable = text "daemon_unreachable"
code timed_out = text "daemon_timeout"
code protocol_error = text "daemon_protocol"
code (reply_error word message) = text "daemon_error"

-- `e.status`
unfoldable pub status : DaemonError → ℕ
status timed_out = 504
status _ = 502

-- code, message, and daemon_class with daemon_message where there are any.
pub record Info : Type 0 where
  pub code : Text
  pub message : Text
  pub said : Option (Text × Text)

unfoldable pub daemon_error_info : DaemonError → Info
daemon_error_info unreachable = record {
  code = text "daemon_unreachable";
  message = text "rsswitchd cannot be reached";
  said = none;
}
daemon_error_info timed_out = record {
  code = text "daemon_timeout";
  message = text "rsswitchd did not answer in time";
  said = none;
}
daemon_error_info protocol_error = record {
  code = text "daemon_protocol";
  message = text "rsswitchd sent a reply that was not understood";
  said = none;
}
daemon_error_info (reply_error word message) = record {
  code = text "daemon_error";
  message = text "rsswitchd refused the command";
  said = some (word, message);
}

-- `isinstance(e, (DaemonUnreachable, DaemonTimeout))`
unfoldable pub ends_batch : DaemonError → Bool
ends_batch unreachable = true
ends_batch timed_out = true
ends_batch _ = false

unfoldable pub is_printable : ℕ → Bool
is_printable c = leb 32 c && leb c 126

unfoldable pub keep_printable : Text → Text
unfolding is_printable
keep_printable [] = []
keep_printable (c ∷ s) = let rest = keep_printable s in if is_printable c then c ∷ rest else rest

unfoldable pub sanitize : Text → Text
unfolding keep_printable
sanitize s = take max_message (keep_printable s)

-- `_check_argument`: the number of an integer that is not negative.
unfoldable pub argument : Value → Option ℕ
argument (int (pos n)) = some n
argument _ = none

unfoldable pub is_lower : ℕ → Bool
is_lower c = leb 97 c && leb c 122

-- The longest prefix of letters a-z, and the rest.
unfoldable pub word_of : Text → Text × Text
unfolding is_lower
word_of [] = ([], [])
word_of (c ∷ s) =
    let (word, rest) = word_of s in if is_lower c then (c ∷ word, rest) else ([], c ∷ s)

-- `_ERR.fullmatch` after "ERR ": the word, and the text after the space.
unfoldable pub after_word : Text × Text → Option (Text × Text)
after_word ([], rest) = none
after_word (c ∷ word, []) = some (c ∷ word, [])
after_word (c ∷ word, d ∷ rest) = if nat_eq d 32 then some (c ∷ word, rest) else none

-- The rest of a text that starts with the prefix.
unfoldable pub without_prefix : Text → Text → Option Text
without_prefix [] s = some s
without_prefix (c ∷ p) [] = none
without_prefix (c ∷ p) (d ∷ s) = let rest = without_prefix p s in if nat_eq c d then rest else none

-- `_ERR.fullmatch`: the two groups.
unfoldable pub err_match : Text → Option (Text × Text)
unfolding word_of after_word without_prefix
err_match reply = elim (without_prefix (text "ERR ") reply) [
  | none ↦ none
  | some rest ↦ after_word (word_of rest)
]

-- What `send` does with the reply.
unfoldable pub outcome_of : Text → Option DaemonError
unfolding err_match
outcome_of reply = if reply == text "OK" then none else elim (err_match reply) [
  | none ↦ some protocol_error
  | some (word, message) ↦ some (reply_error word (sanitize message))
]

unfoldable pub command_line : ℕ → ℕ → ℕ → ℕ → Text
command_line dev group number data_ =
    decimal dev
    ++ text " "
    ++ decimal group
    ++ text " "
    ++ decimal number
    ++ text " "
    ++ decimal data_
    ++ text "\n"

-- What the socket does for one command.
pub data Connect : Type 0 where
  connected connect_timeout connect_refused : Connect

pub data Write : Type 0 where
  sent_all write_timeout write_error : Write

pub record Peer : Type 0 where
  pub connect : Connect
  pub deadline : ℕ
  pub write : Write
  pub passes : ℕ → Pass

unfoldable pub error_of : Broken → DaemonError
error_of too_late = timed_out
error_of _ = protocol_error

unfoldable pub read_reply : Option (Result Broken Text) → Option (Option DaemonError)
unfolding error_of outcome_of
read_reply none = none
read_reply (some (err b)) = some (some (error_of b))
read_reply (some (ok reply)) = some (outcome_of reply)

-- The answers of the connect, of the write and of `_read_line`, which is asked last.
unfoldable pub outcome_with :
    Connect → Write → Option (Result Broken Text) → Option (Option DaemonError)
unfolding read_reply
outcome_with connect_timeout write reply = some (some timed_out)
outcome_with connect_refused write reply = some (some unreachable)
outcome_with connected write_timeout reply = some (some timed_out)
outcome_with connected write_error reply = some (some protocol_error)
outcome_with connected sent_all reply = read_reply reply

-- The part of `send` with the connection. Its result is the error that is raised, if any.
unfoldable pub exchange : Peer → Option (Option DaemonError)
unfolding outcome_with
exchange peer =
    outcome_with peer.connect peer.write (read_line peer.passes peer.deadline reply_fuel 0 [])

-- A command as it is sent, or none for a ValueError.
unfoldable pub command : Value → Value → Value → Value → Option Text
unfolding argument command_line
command dev group number data_ = elim (argument dev) [
  | none ↦ none
  | some a ↦ elim (argument group) [
    | none ↦ none
    | some b ↦ elim (argument number) [
      | none ↦ none
      | some c ↦ elim (argument data_) [
        | none ↦ none
        | some d ↦ if ltb 1 d then none else some (command_line a b c d)
      ]
    ]
  ]
]

-- `send`: the line that is sent, if one is, and the outcome. `none` outside is a ValueError.
unfoldable pub send :
    Value → Value → Value → Value → Peer → Option (Text × Option (Option DaemonError))
unfolding command exchange
send dev group number data_ peer = elim (command dev group number data_) [
  | none ↦ none
  | some line ↦ some (line, exchange peer)
]
