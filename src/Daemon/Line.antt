-- ===== src/Daemon/Line.antt =====
-- `_read_line` of examples/web/rsswitch_web/daemon.py.
use librsswitch.Base.{
  ℕ, zero, suc, List, [], ◌∷◌, ◌++◌, Option, none, some, length, ltb, leb, ◌==◌ as nat_eq,
  if◌then◌else◌,
}
use librsswitch.Base.Result.{Result, ok, err}
use librsswitch.Base.Text.{Text}

abbrev pub max_reply : ℕ
max_reply = 256

-- One pass of the loop in `_read_line`: the clock before it, and what `recv` answers.
pub data Received : Type 0 where
  chunk : List ℕ → Received
  recv_timeout recv_error : Received

pub record Pass : Type 0 where
  pub now : ℕ
  pub answer : Received

-- What ends the exchange after the connect: an exception of `_read_line`, or of the socket.
pub data Broken : Type 0 where
  too_late os_failure no_reply too_long : Broken

-- `buf.find(b"\n")` and `buf[:end]`
unfoldable pub line_of : List ℕ → Option (List ℕ)
line_of [] = none
line_of (c ∷ s) =
    if nat_eq c 10 then some [] else elim (line_of s) [ none ↦ none | some rest ↦ some (c ∷ rest) ]

-- `line.endswith(b"\r")` and `line[:-1]`
unfoldable pub without_cr : List ℕ → List ℕ
without_cr [] = []
without_cr (c ∷ []) = if nat_eq c 13 then [] else c ∷ []
without_cr (c ∷ d ∷ s) = c ∷ without_cr (d ∷ s)

-- `line.decode("ascii", errors="replace")`
unfoldable pub decode_ascii : List ℕ → Text
decode_ascii [] = []
decode_ascii (c ∷ s) = (if ltb c 128 then c else 65533) ∷ decode_ascii s

unfoldable pub accept_line : List ℕ → Result Broken Text
unfolding without_cr decode_ascii
accept_line line =
    if ltb max_reply (length line) then err too_long else ok (decode_ascii (without_cr line))

-- What one pass does with the answer of `recv`. `next` is the rest of the loop, with the buffer.
unfoldable pub received :
    Received → List ℕ → (List ℕ → Option (Result Broken Text)) → Option (Result Broken Text)
unfolding accept_line line_of
received recv_timeout buf next = some (err too_late)
received recv_error buf next = some (err os_failure)
received (chunk []) buf next = some (err no_reply)
received (chunk (c ∷ cs)) buf next = elim (line_of (buf ++ c ∷ cs)) [
  | some line ↦ some (accept_line line)
  | none ↦
      if ltb max_reply (length (buf ++ c ∷ cs)) then some (err too_long) else next (buf ++ c ∷ cs)
]

-- `_read_line`. `passes` are the passes of the loop, the next one is `i`, and `none` says that the
-- fuel is spent.
unfoldable pub read_line : (ℕ → Pass) → ℕ → ℕ → ℕ → List ℕ → Option (Result Broken Text)
unfolding received
read_line passes deadline zero i buf = none
read_line passes deadline (suc fuel) i buf =
    let next : List ℕ → Option (Result Broken Text) =
      λ b. read_line passes deadline fuel (suc i) b in
    if leb deadline (passes i).now then some (err too_late) else received (passes i).answer buf next

-- A pass for each byte of the longest buffer, and one more, are enough.
abbrev pub reply_fuel : ℕ
reply_fuel = 257
