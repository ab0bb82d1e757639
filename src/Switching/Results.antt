-- ===== src/Switching/Results.antt =====
-- The report of All-off: all_off of examples/web/rsswitch_web/switching.py.
use librsswitch.Base.{
  ℕ, ◌≡◌, refl, sym, ap, ◌∙◌, Bool, true, false, ◌||◌, Bool-cases, List, [], ◌∷◌, ◌++◌, Option,
  none, some, inl, inr, map, All, arith,
}
use mathlib.Core.Path.{subst}
use librsswitch.Base.Result.{Result, ok, >>=-eq-ok}
use librsswitch.Base.Text.{Text, ◌==◌, contains, eq_refl, eq_iff}
use librsswitch.Model.Types.{Socket}
use librsswitch.Errors.{Abort}
use librsswitch.Store.Record.{Address, address_of}
use librsswitch.Store.File.{Failure}
use librsswitch.Daemon.{Info, DaemonError, daemon_error_info}
use librsswitch.Switching.{
  Round, Outcome, failed, skipped, Batch, add_member, members_from, members_of, assign_all,
  outcome_at, confirmed, after_send, started, turn, turns, no_batch, Entry, entries_of, Report,
  report_of, finish_with, finish,
}
use librsswitch.Switching.Counts.{results-report_of}

abbrev Has : List (Text × Outcome) → Text → Type 0
Has os sid = (o : Outcome) × (outcome_at sid os ≡ some o)

Has-cons :
    (os : List (Text × Outcome)) (i : Text) (o : Outcome) (sid : Text)
    → Has os sid
    → Has ((i, o) ∷ os) sid
unfolding outcome_at
Has-cons os i o sid (p, h) = elim (Bool-cases (i == sid)) [
  | inl e ↦ (o, rw e refl)
  | inr e ↦ (p, rw e h)
]

assign_all-keeps :
    (f : Text → Outcome) (ids : List Text) (os : List (Text × Outcome)) (sid : Text)
    → Has os sid
    → Has (assign_all f ids os) sid
unfolding assign_all
assign_all-keeps f [] os sid h = h
assign_all-keeps f (i ∷ ids) os sid h = assign_all-keeps f ids _ sid (Has-cons os i (f i) sid h)

assign_all-Has :
    (f : Text → Outcome) (ids : List Text) (os : List (Text × Outcome)) (sid : Text)
    → contains sid ids ≡ true
    → Has (assign_all f ids os) sid
unfolding assign_all contains outcome_at
assign_all-Has f [] os sid h = cc
assign_all-Has f (i ∷ ids) os sid h = elim (Bool-cases (sid == i)) [
  | inl e ↦
      let same : sid ≡ i = (eq_iff sid i).0 e in
      assign_all-keeps f ids _ sid (f i, ground (arith, same, eq_refl i))
  | inr e ↦ assign_all-Has f ids _ sid (ground arith)
]

covers : Text → List (Address × List Text) → Bool
covers sid [] = false
covers sid ((a, ids) ∷ ms) = contains sid ids || covers sid ms

contains-append :
    (sid : Text) (xs ys : List Text)
    → contains sid (xs ++ ys) ≡ (contains sid xs || contains sid ys)
unfolding contains
contains-append sid [] ys = refl
contains-append sid (x ∷ xs) ys = ground (arith, contains-append sid xs ys)

covers-add_member :
    (a : Address) (s sid : Text) (ms : List (Address × List Text))
    → covers sid (add_member a s ms) ≡ (sid == s || covers sid ms)
unfolding covers add_member contains
covers-add_member a s sid [] = ground arith
covers-add_member a s sid ((b, ids) ∷ ms) =
    ground (arith, covers-add_member a s sid ms, contains-append sid ids (s ∷ []))

covers-members_from :
    (ss : List (Text × Socket)) (ms : List (Address × List Text)) (sid : Text)
    → covers sid ms ≡ true
    → covers sid (members_from ss ms) ≡ true
unfolding members_from
covers-members_from [] ms sid h = h
covers-members_from ((r, s) ∷ ss) ms sid h =
    covers-members_from ss _ sid (ground (arith, covers-add_member (address_of s) s.id sid ms))

members_from-cover :
    (ss : List (Text × Socket)) (ms : List (Address × List Text))
    → All (λ p. covers p.1.id (members_from ss ms) ≡ true) ss
unfolding members_from
members_from-cover [] ms = tt
members_from-cover ((r, s) ∷ ss) ms = (
  covers-members_from ss _ s.id
      (ground (arith, covers-add_member (address_of s) s.id s.id ms, eq_refl s.id)),
  members_from-cover ss _,
)

module _ (rounds : ℕ → Round) where
  abbrev Assigned : List Text → Batch → Batch → Type 0
  Assigned ids b b' = (f : Text → Outcome) × (b'.outcome ≡ assign_all f ids b.outcome)

  batch_eq : {A : Type 0} {a b : A} → ◌≡◌ {A = Result (Failure Abort) A} (ok a) (ok b) → a ≡ b
  batch_eq h = cc

  after_send-Assigned :
      (ids : List Text) (o : Option DaemonError) (round : Round) (b b' : Batch)
      → after_send ids o round b ≡ ok b'
      → Assigned ids b b'
  unfolding after_send
  after_send-Assigned ids none round b b' h =
      let (written, _, e) = >>=-eq-ok _ _ h in
      (confirmed round.at written, ap (λ (z : Batch). z.outcome) (sym (batch_eq e)))
  after_send-Assigned ids (some x) round b b' h =
      (λ sid. failed (daemon_error_info x), ap (λ (z : Batch). z.outcome) (sym (batch_eq h)))

  turn-Assigned :
      (a : Address) (ids : List Text) (o : Option Info) (b b' : Batch)
      → turn rounds a ids o b ≡ ok b'
      → Assigned ids b b'
  unfolding turn started
  turn-Assigned a ids none b b' h =
      after_send-Assigned ids (rounds b.sent).send (rounds b.sent) (started a b) b' h
  turn-Assigned a ids (some info) b b' h =
      (λ sid. skipped info, ap (λ (z : Batch). z.outcome) (sym (batch_eq h)))

  turns-keep :
      (ms : List (Address × List Text)) (b b' : Batch) (sid : Text)
      → turns rounds ms b ≡ ok b'
      → Has b.outcome sid
      → Has b'.outcome sid
  unfolding turns
  turns-keep [] b b' sid h has = subst (λ (z : Batch). Has z.outcome sid) (batch_eq h) has
  turns-keep ((a, ids) ∷ ms) b b' sid h has =
      let (next, e, e') = >>=-eq-ok _ _ h in
      let (f, same) = turn-Assigned a ids b.stop_error b next e in
      turns-keep ms next b' sid e'
        (subst (λ os. Has os sid) (sym same) (assign_all-keeps f ids b.outcome sid has))

  turns-Has :
      (ms : List (Address × List Text)) (b b' : Batch) (sid : Text)
      → turns rounds ms b ≡ ok b'
      → covers sid ms ≡ true
      → Has b'.outcome sid
  unfolding turns covers
  turns-Has [] b b' sid h c = cc
  turns-Has ((a, ids) ∷ ms) b b' sid h c =
      let (next, e, e') = >>=-eq-ok _ _ h in
      let (f, same) = turn-Assigned a ids b.stop_error b next e in
      elim (Bool-cases (contains sid ids)) [
        | inl here ↦
            turns-keep ms next b' sid e'
              (subst (λ os. Has os sid) (sym same) (assign_all-Has f ids b.outcome sid here))
        | inr later ↦ turns-Has ms next b' sid e' (ground arith)
      ]

-- The ids of a socket and of its room, as an entry of the report has them.
abbrev pub ids_of_entry : Entry → Text × Text
ids_of_entry (sid, rid, o) = (sid, rid)

abbrev pub ids_of_socket : Text × Socket → Text × Text
ids_of_socket (rid, s) = (s.id, rid)

entries_of-cons :
    (os : List (Text × Outcome)) (rid : Text) (s : Socket) (ss : List (Text × Socket)) (o : Outcome)
    (es : List Entry)
    → outcome_at s.id os ≡ some o
    → entries_of os ss ≡ some es
    → entries_of os ((rid, s) ∷ ss) ≡ some ((s.id, rid, o) ∷ es)
unfolding entries_of
entries_of-cons os rid s ss o es found rest = ground (arith, found, rest)

finish-ok :
    (ss : List (Text × Socket)) (batch : Batch) (es : List Entry)
    → entries_of batch.outcome ss ≡ some es
    → finish ss batch ≡ ok (report_of es, batch)
unfolding finish finish_with
finish-ok ss batch es h = ap (λ o. finish_with o batch) h

entries_of-ok :
    (os : List (Text × Outcome)) (ss : List (Text × Socket))
    → All (λ p. Has os p.1.id) ss
    → (es : List Entry) × (entries_of os ss ≡ some es)
      × (map ids_of_entry es ≡ map ids_of_socket ss)
unfolding entries_of
entries_of-ok os [] h = ([], refl, refl)
entries_of-ok os ((rid, s) ∷ ss) h =
    let ((o, found), rest) = h in
    let (es, e, same) = entries_of-ok os ss rest in
    ((s.id, rid, o) ∷ es, entries_of-cons os rid s ss o es found e, ap (◌∷◌ (s.id, rid)) same)

All-map :
    (P Q : Text × Socket → Type 0) (ss : List (Text × Socket))
    → ((p : Text × Socket) → P p → Q p)
    → All P ss
    → All Q ss
All-map P Q [] f h = tt
All-map P Q (s ∷ ss) f h = (f s h.0, All-map P Q ss f h.1)

-- When the loop over the addresses is through, the report has one entry for each socket, in display
-- order, and no lookup of an outcome fails, whatever the daemon and the store answered.
pub finish-members_of :
    (rounds : ℕ → Round) (ss : List (Text × Socket)) (batch : Batch)
    → turns rounds (members_of ss) no_batch ≡ ok batch
    → (r : Report) × (finish ss batch ≡ ok (r, batch))
      × (map ids_of_entry r.results ≡ map ids_of_socket ss)
finish-members_of rounds ss batch h =
    let has =
      All-map _ (λ p. Has batch.outcome p.1.id) ss
        (λ p c. turns-Has rounds (members_of ss) no_batch batch p.1.id h c)
        (members_from-cover ss []) in
    let (es, e, same) = entries_of-ok batch.outcome ss has in
    (report_of es, finish-ok ss batch es e, ap (map ids_of_entry) (results-report_of es) ∙ same)
