-- ===== src/Auth/Hook/Progress.antt =====
-- The answer of a request.
use librsswitch.Base.{
  ◌≡◌, ◌⊎◌, refl, ap, ◌∙◌, ◌≤◌, ℕ, Bool, true, false, Bool-cases, Option-cases, ◌||◌, List, [], ◌∷◌,
  none, some, inl, inr, length, arith,
}
use mathlib.Core.Path.{subst}
use librsswitch.Base.Text.{Text, contains, eq_iff}
use librsswitch.Auth.{Entry, Entries, lookup, retry_locked, retry_entry, retry_after}
use librsswitch.Auth.Bounds.{failed-bounded}
use librsswitch.Auth.Hook.{
  Site, Digest, Answer, admitted, unauthorized, Phase, arrived, known, queued, holding, checking,
  verified, cached, done, Thread, Shared, pass_ok, if_locked, if_cached, with_credentials,
  after_failed, after_second_look, after_second_wait, is_right, is_accepted, acquire, turn, move,
  move_at, at_phase, Event, runs, happen, play,
}

-- One thread that takes a turn at each of the times.
abbrev pub turns_at : List ℕ → List Event
turns_at [] = []
turns_at (now ∷ times) = runs 0 now ∷ turns_at times

-- The address is not locked out; failures of it may be counted.
abbrev pub IsOpen : Text → Entries → Type 0
IsOpen addr es = (e : Entry) → lookup addr es ≡ some e → e.until ≡ none

retry_open :
    (addr : Text) (now : ℕ) (es : Entries) → IsOpen addr es → retry_after addr now es ≡ (0, es)
unfolding retry_after retry_entry retry_locked
retry_open addr now es h = elim (Option-cases (lookup addr es)) [
  | inl e ↦ rw e refl
  | inr (x, e) ↦ rw e (rw (h x e) refl)
]

abbrev verdict : Bool → Answer
verdict true = admitted
verdict false = unauthorized

module _ (site : Site) (t : Thread) where
  -- The credentials of the header are remembered, or they are right.
  abbrev pub IsVouched : List Digest → Type 0
  IsVouched cache =
      (contains (site.sha256 t.header) cache ≡ true)
      ⊎ ((password : Text) × (site.authorization t.header ≡ some (site.username, password))
          × (site.check_password password ≡ some true))

  -- The turns of the thread end in an answer, with the verify lock free.
  abbrev pub Ends : Answer → Phase → Shared → List ℕ → Type 0
  Ends answer phase sh times =
      (after : Shared) × (play site (turns_at times) (at_phase t phase ∷ [], sh)
        ≡ (at_phase t (done answer) ∷ [], after))
      × (after.busy ≡ false)

  -- One turn.
  Ends-cons :
      (answer : Answer) (phase next : Phase) (sh sh' : Shared) (now : ℕ) (times : List ℕ)
      → turn site now t.addr t.header phase sh ≡ (next, sh')
      → Ends answer next sh' times
      → Ends answer phase sh (now ∷ times)
  unfolding play happen move_at move
  Ends-cons answer phase next sh sh' now times step (after, ends, free) = (
    after,
    ap (λ (r : Phase × Shared). play site (turns_at times) (at_phase t r.0 ∷ [], r.1)) step ∙ ends,
    free,
  )

  done-Ends :
      (answer : Answer) (sh : Shared) (times : List ℕ)
      → sh.busy ≡ false
      → Ends answer (done answer) sh times
  unfolding play turn
  done-Ends answer sh [] free = (sh, refl, free)
  done-Ends answer sh (now ∷ times) free =
      Ends-cons answer (done answer) (done answer) sh sh now times refl
        (done-Ends answer sh times free)

  cached-Ends :
      (sh : Shared) (times : List ℕ)
      → sh.busy ≡ false
      → 1 ≤ length times
      → Ends admitted cached sh times
  unfolding turn
  cached-Ends sh [] free long = absurd (omega (arith, long))
  cached-Ends sh (now ∷ times) free long =
      Ends-cons admitted cached (done admitted) sh _ now times refl
        (done-Ends admitted _ times free)

  -- The limiter is within its bound, and the address is not locked out.
  abbrev pub IsReady : Entries → Type 0
  IsReady es =
      (1 ≤ site.limits.max_tracked) × (length es ≤ site.limits.max_tracked) × IsOpen t.addr es

  verified-Ends :
      (b : Bool) (sh : Shared) (times : List ℕ)
      → sh.busy ≡ false
      → IsReady sh.entries
      → 2 ≤ length times
      → Ends (verdict b) (verified b) sh times
  unfolding turn after_failed
  verified-Ends b sh [] free ready long = absurd (omega (arith, long))
  verified-Ends true sh (now ∷ times) free ready long =
      Ends-cons admitted (verified true) cached sh _ now times refl
        (cached-Ends _ times free (omega (arith, long)))
  verified-Ends false sh (now ∷ times) free ready long =
      let (r, same, _) = failed-bounded site.limits t.addr now sh.entries ready.0 ready.1 in
      Ends-cons unauthorized (verified false) (done unauthorized) sh (record sh { entries = r.1 })
        now times (ap (λ o. after_failed o sh) same) (done-Ends unauthorized _ times free)

  checking-Ends :
      (sh : Shared) (times : List ℕ)
      → IsReady sh.entries
      → 3 ≤ length times
      → Ends (verdict (is_accepted site t.header)) checking sh times
  unfolding turn
  checking-Ends sh [] ready long = absurd (omega (arith, long))
  checking-Ends sh (now ∷ times) ready long =
      Ends-cons _ checking (verified (is_accepted site t.header)) sh (record sh { busy = false })
        now times refl
        (verified-Ends (is_accepted site t.header) _ times refl ready (omega (arith, long)))

  holding-Ends :
      (sh : Shared) (times : List ℕ)
      → IsReady sh.entries
      → 4 ≤ length times
      → Ends (verdict (is_accepted site t.header)) holding sh times
  unfolding turn after_second_wait
  holding-Ends sh [] ready long = absurd (omega (arith, long))
  holding-Ends sh (now ∷ times) ready long =
      Ends-cons _ holding checking sh sh now times
        (ap (λ (r : ℕ × Entries). after_second_wait r.0 (record sh { entries = r.1 }))
          (retry_open t.addr now sh.entries ready.2))
        (checking-Ends sh times ready (omega (arith, long)))

  -- A request that waits for the free verify lock, and whether it is in the cache.
  queued-Ends :
      (sh : Shared) (times : List ℕ)
      → sh.busy ≡ false
      → contains (site.sha256 t.header) sh.cache ≡ false
      → IsReady sh.entries
      → 5 ≤ length times
      → Ends (verdict (is_accepted site t.header)) queued sh times
  unfolding turn acquire after_second_look
  queued-Ends sh [] free out ready long = absurd (omega (arith, long))
  queued-Ends sh (now ∷ times) free out ready long =
      Ends-cons _ queued holding sh (record sh { busy = true }) now times (rw free (rw out refl))
        (holding-Ends _ times ready (omega (arith, long)))

  known-Ends :
      (sh : Shared) (times : List ℕ)
      → sh.busy ≡ false
      → IsReady sh.entries
      → 6 ≤ length times
      → Ends
          (verdict (contains (site.sha256 t.header) sh.cache || is_accepted site t.header))
          known
          sh
          times
  unfolding turn if_cached
  known-Ends sh [] free ready long = absurd (omega (arith, long))
  known-Ends sh (now ∷ times) free ready long =
      elim (Bool-cases (contains (site.sha256 t.header) sh.cache)) [
        | inl e ↦ rw e (
            Ends-cons admitted known (done admitted) sh sh now times (rw e refl)
              (done-Ends admitted sh times free))
        | inr e ↦ rw e (
            Ends-cons _ known queued sh sh now times (rw e refl)
              (queued-Ends sh times free e ready (omega (arith, long))))
      ]

  -- Whether the thread is admitted, from the code's own test.
  is_accepted-cases :
      (cache : List Digest) (c : Text × Text)
      → site.authorization t.header ≡ some c
      → ((verdict (contains (site.sha256 t.header) cache || is_accepted site t.header) ≡ admitted)
          × IsVouched cache)
        ⊎ ((verdict (contains (site.sha256 t.header) cache || is_accepted site t.header)
              ≡ unauthorized)
            × (¬ IsVouched cache))
  unfolding is_accepted is_right pass_ok
  is_accepted-cases cache (user, password) e =
      elim (Bool-cases (contains (site.sha256 t.header) cache)) [
        | inl h ↦ inl (rw h refl, inl h)
        | inr h ↦ elim (Bool-cases (is_accepted site t.header)) [
          | inl a ↦
              let own : user ≡ site.username = ground (arith, eq_iff user site.username) in
              inl (
                rw h (rw a refl),
                inr (password, e ∙ ap (λ (u : Text). some (u, password)) own, ground arith),
              )
          | inr a ↦ inr (
            rw h (rw a refl),
            λ v. elim v [
              | inl remembered ↦ ground arith
              | inr (p, same, right) ↦ ground (arith, eq_iff user site.username)
            ],
          )
        ]
      ]

  -- A request that comes in, is alone and finds the verify lock free, from an address that is not locked
  -- out, is answered after seven turns at most, whatever the clock shows, and the verify lock is free
  -- again. A header without credentials is refused. With credentials the request is admitted exactly
  -- where the digest of its header is in the cache, or the name is that of the configuration and its
  -- password hash matches the password; else the answer is 401. The limiter has to be within its bound
  -- of one address or more.
  pub play_answers :
      (sh : Shared) (times : List ℕ)
      → sh.busy ≡ false
      → IsReady sh.entries
      → 7 ≤ length times
      → ((site.authorization t.header ≡ none) × Ends unauthorized arrived sh times)
        ⊎ ((c : Text × Text) × (site.authorization t.header ≡ some c)
            × ((IsVouched sh.cache × Ends admitted arrived sh times)
                ⊎ ((¬ IsVouched sh.cache) × Ends unauthorized arrived sh times)))
  unfolding turn if_locked with_credentials
  play_answers sh [] free ready long = absurd (omega (arith, long))
  play_answers sh (now ∷ times) free ready long =
      let open_ = retry_open t.addr now sh.entries ready.2 in
      let first : turn site now t.addr t.header arrived sh
          ≡ (with_credentials (site.authorization t.header), sh) =
        ap
          (λ (r : ℕ × Entries). (
            if_locked r.0 (with_credentials (site.authorization t.header)),
            record sh { entries = r.1 },
          ))
          open_ in
      elim (Option-cases (site.authorization t.header)) [
        | inl e ↦ inl (
          e,
          Ends-cons unauthorized arrived (done unauthorized) sh sh now times
              (first ∙ ap (λ o. (with_credentials o, sh)) e) (done-Ends unauthorized sh times free),
        )
        | inr (c, e) ↦
            let ends =
              Ends-cons _ arrived known sh sh now times
                (first ∙ ap (λ o. (with_credentials o, sh)) e)
                (known-Ends sh times free ready (omega (arith, long))) in
            inr (
              c,
              e,
              elim (is_accepted-cases sh.cache c e) [
                | inl (same, vouched) ↦
                    inl (vouched, subst (λ a. Ends a arrived sh (now ∷ times)) same ends)
                | inr (same, not_vouched) ↦
                    inr (not_vouched, subst (λ a. Ends a arrived sh (now ∷ times)) same ends)
              ],
            )
      ]
