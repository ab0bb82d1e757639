-- ===== src/Daemon/Reply.antt =====
-- The replies of rsswitchd that the client reads, and the messages that it passes on.
use librsswitch.Base.{
  ℕ, zero, suc, ◌+◌, ◌≤◌, ◌<◌, ◌≡◌, refl, Bool-cases, Option-cases, List, [], ◌∷◌, ◌++◌, Option,
  none, some, inl, inr, ap, All, length, take, ltb, leb, length-append, arith,
}
use librsswitch.Base.Result.{Result, ok, err}
use librsswitch.Base.Text.{Text, text, ◌==◌, eq_iff}
use librsswitch.Daemon.{
  max_reply, max_message, DaemonError, is_printable, keep_printable, sanitize, chunk, recv_timeout,
  recv_error, Received, Pass, Broken, line_of, accept_line, received, too_late, os_failure,
  no_reply, too_long, read_line, reply_fuel, err_match, outcome_of, error_of, Connect, connected,
  connect_timeout, connect_refused, Write, sent_all, write_timeout, write_error, Peer, read_reply,
  outcome_with, exchange, unreachable, timed_out, protocol_error,
}

keep_printable-Printable : (s : Text) → All (λ c. (32 ≤ c) × (c ≤ 126)) (keep_printable s)
unfolding keep_printable is_printable
keep_printable-Printable [] = tt
keep_printable-Printable (c ∷ s) = elim (Bool-cases (is_printable c)) [
  | inl e ↦ rw e ((ground arith, ground arith), keep_printable-Printable s)
  | inr e ↦ rw e (keep_printable-Printable s)
]

take-All : (P : ℕ → Type 0) (n : ℕ) (s : Text) → All P s → All P (take n s)
take-All P zero s h = tt
take-All P (suc n) [] h = tt
take-All P (suc n) (c ∷ s) h = (h.0, take-All P n s h.1)

length-take-le : (n : ℕ) (s : Text) → length (take n s) ≤ n
length-take-le zero s = omega arith
length-take-le (suc n) [] = omega arith
length-take-le (suc n) (c ∷ s) = ground (arith, length-take-le n s)

-- What is passed on of a daemon's text is printable ASCII, of at most MAX_MESSAGE characters.
pub sanitize-bounds :
    (s : Text) → All (λ c. (32 ≤ c) × (c ≤ 126)) (sanitize s) × (length (sanitize s) ≤ max_message)
unfolding sanitize
sanitize-bounds s = (
  take-All _ max_message (keep_printable s) (keep_printable-Printable s),
  length-take-le max_message (keep_printable s),
)

abbrev Ends : Option (Result Broken Text) → Type 0
Ends o = (r : Result Broken Text) × (o ≡ some r)

received-Ends :
    (answer : Received) (buf : List ℕ) (next : List ℕ → Option (Result Broken Text))
    → ((b : List ℕ) → length b ≤ max_reply → length buf < length b → Ends (next b))
    → Ends (received answer buf next)
unfolding received
received-Ends recv_timeout buf next h = (err too_late, refl)
received-Ends recv_error buf next h = (err os_failure, refl)
received-Ends (chunk []) buf next h = (err no_reply, refl)
received-Ends (chunk (c ∷ cs)) buf next h =
    let whole = buf ++ c ∷ cs in
    elim (Option-cases (line_of whole)) [
      | inr (line, e) ↦ (accept_line line, ground (arith, e))
      | inl e ↦ elim (Bool-cases (ltb max_reply (length whole))) [
        | inl long ↦ (err too_long, ground (arith, e, long))
        | inr short ↦
            let grown : length whole ≡ length buf + suc (length cs) = length-append buf (c ∷ cs) in
            let (r, same) = h whole (ground arith) (omega arith) in
            (r, ground (arith, e, short, same))
      ]
    ]

-- Enough fuel for the bytes that the buffer can still take.
read_line-Ends :
    (passes : ℕ → Pass) (deadline fuel i : ℕ) (buf : List ℕ)
    → max_reply < length buf + fuel
    → length buf ≤ max_reply
    → Ends (read_line passes deadline fuel i buf)
unfolding read_line
read_line-Ends passes deadline zero i buf more less = absurd (omega arith)
read_line-Ends passes deadline (suc fuel) i buf more less =
    elim (Bool-cases (leb deadline (passes i).now)) [
      | inl late ↦ (err too_late, ground (arith, late))
      | inr early ↦
          let next : List ℕ → Option (Result Broken Text) =
            λ b. read_line passes deadline fuel (suc i) b in
          let (r, same) =
            received-Ends (passes i).answer buf next (λ b short grown.
              read_line-Ends passes deadline fuel (suc i) b (omega arith) short) in
          (r, ground (arith, early, same))
    ]

read_reply-Ends :
    (o : Option (Result Broken Text)) → Ends o → (e : Option DaemonError) × (read_reply o ≡ some e)
unfolding read_reply
read_reply-Ends none (r, h) = absurd (ground arith)
read_reply-Ends (some (ok reply)) h = (outcome_of reply, refl)
read_reply-Ends (some (err b)) h = (some (error_of b), refl)

outcome_with-Ends :
    (c : Connect) (w : Write) (o : Option (Result Broken Text))
    → Ends o
    → (e : Option DaemonError) × (outcome_with c w o ≡ some e)
unfolding outcome_with
outcome_with-Ends connect_timeout w o h = (some timed_out, refl)
outcome_with-Ends connect_refused w o h = (some unreachable, refl)
outcome_with-Ends connected write_timeout o h = (some timed_out, refl)
outcome_with-Ends connected write_error o h = (some protocol_error, refl)
outcome_with-Ends connected sent_all o h = read_reply-Ends o h

-- A command always ends, with OK or with one error, whatever bytes the peer sends and however it
-- divides them: the fuel of 257 passes is enough.
pub exchange-ends : (peer : Peer) → (e : Option DaemonError) × (exchange peer ≡ some e)
unfolding exchange
exchange-ends peer =
    outcome_with-Ends peer.connect peer.write _
      (read_line-Ends peer.passes peer.deadline reply_fuel 0 [] (omega arith) (omega arith))

outcome_of-done : (reply : Text) → outcome_of reply ≡ none → reply ≡ text "OK"
unfolding outcome_of
outcome_of-done reply h = elim (Bool-cases (reply == text "OK")) [
  | inl e ↦ (eq_iff reply (text "OK")).0 e
  | inr e ↦ elim (Option-cases (err_match reply)) [
    | inl e' ↦ absurd (ground (arith, e, e'))
    | inr ((word, message), e') ↦ absurd (ground (arith, e, e'))
  ]
]

read_reply-done :
    (o : Option (Result Broken Text)) → read_reply o ≡ some none → o ≡ some (ok (text "OK"))
unfolding read_reply
read_reply-done none h = cc
read_reply-done (some (ok reply)) h =
    ap (λ (t : Text). some (ok t)) (outcome_of-done reply (ground arith))
read_reply-done (some (err b)) h = absurd (ground arith)

outcome_with-done :
    (c : Connect) (w : Write) (o : Option (Result Broken Text))
    → outcome_with c w o ≡ some none
    → (c ≡ connected) × (w ≡ sent_all) × (o ≡ some (ok (text "OK")))
unfolding outcome_with
outcome_with-done connect_timeout w o h = absurd (ground arith)
outcome_with-done connect_refused w o h = absurd (ground arith)
outcome_with-done connected write_timeout o h = absurd (ground arith)
outcome_with-done connected write_error o h = absurd (ground arith)
outcome_with-done connected sent_all o h = (refl, refl, read_reply-done o h)

-- A command counts as done only when the daemon was reached, the whole line was sent, and the reply
-- line was "OK".
pub exchange-done :
    (peer : Peer)
    → exchange peer ≡ some none
    → (peer.connect ≡ connected)
      × (peer.write ≡ sent_all)
      × (read_line peer.passes peer.deadline reply_fuel 0 [] ≡ some (ok (text "OK")))
unfolding exchange
exchange-done peer h = outcome_with-done peer.connect peer.write _ h
