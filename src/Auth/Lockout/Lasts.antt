-- ===== src/Auth/Lockout/Lasts.antt =====
-- What may happen to a LoginLimiter while an address is locked out.
use librsswitch.Base.{
  ℕ, ◌+◌, ◌≤◌, ◌<◌, ◌≡◌, ◌≢◌, ◌∙◌, refl, ap, true, Bool-cases, List, [], ◌∷◌, Option, none, some,
  inl, inr, All, length, leb, arith,
}
use librsswitch.Base.Opt.{◌>>=◌}
use librsswitch.Base.Text.{Text, ◌==◌, eq_iff}
use librsswitch.Auth.{
  Entry, Entries, lookup, remove, assign, retry_locked, retry_entry, retry_after, succeeded, Limits,
  is_over, expire, count, count_known, make_room, failed_entry, failed,
}
use librsswitch.Auth.Bounds.{length-expire, length-assign-le}
use librsswitch.Auth.Lockout.{Locked, lookup-expire, failed-Locked, retry_after-Locked}

lookup-assign_other :
    (a b : Text) (e : Entry) (es : Entries) → b ≢ a → lookup a (assign b e es) ≡ lookup a es
unfolding lookup assign
lookup-assign_other a b e [] h = ground (arith, eq_iff b a)
lookup-assign_other a b e ((c, f) ∷ es) h =
    ground (arith, lookup-assign_other a b e es h, eq_iff c b, eq_iff c a, eq_iff b a)

lookup-remove_other : (a b : Text) (es : Entries) → b ≢ a → lookup a (remove b es) ≡ lookup a es
unfolding lookup remove
lookup-remove_other a b [] h = refl
lookup-remove_other a b ((c, f) ∷ es) h =
    ground (arith, lookup-remove_other a b es h, eq_iff c b, eq_iff c a)

length-remove-le : (b : Text) (es : Entries) → length (remove b es) ≤ length es
unfolding remove
length-remove-le b [] = omega arith
length-remove-le b ((c, f) ∷ es) = ground (arith, length-remove-le b es)

-- A call of a method of the limiter, with the reading of the clock.
pub data Call : Type 0 where
  asks : Text → ℕ → Call
  fails : Text → ℕ → Call
  logs_in : Text → Call

module _ (limits : Limits) where
  unfoldable pub after_call : Call → Entries → Option Entries
  after_call (asks b now) es = some (retry_after b now es).1
  after_call (fails b now) es = failed limits b now es >>= (λ r. some r.1)
  after_call (logs_in b) es = some (succeeded b es)

  unfoldable pub after_calls : List Call → Entries → Option Entries
  unfolding after_call
  after_calls [] es = some es
  after_calls (c ∷ cs) es = after_call c es >>= after_calls cs

  -- A call at a time before the end of a lock of `a`, and no success of `a`.
  abbrev pub IsDuring : Text → ℕ → Call → Type 0
  IsDuring a end (asks b now) = now < end
  IsDuring a end (fails b now) = now < end
  IsDuring a end (logs_in b) = b ≢ a

  -- The address is still locked, and the limiter has one entry more at most.
  abbrev Stays : Text → ℕ → Entries → Entries → Type 0
  Stays a end es after = Locked limits a end after × (length after ≤ length es + 1)

  remove-Stays :
      (a b : Text) (end : ℕ) (es : Entries)
      → b ≢ a
      → Locked limits a end es
      → Stays a end es (remove b es)
  remove-Stays a b end es other (e, found, until) =
      ((e, lookup-remove_other a b es other ∙ found, until), omega (arith, length-remove-le b es))

  -- A question of the address itself.
  asks_own :
      (a : Text) (end now : ℕ) (es : Entries)
      → now < end
      → Locked limits a end es
      → (retry_after a now es).1 ≡ es
  unfolding retry_after retry_entry retry_locked
  asks_own a end now es early (e, found, until) = rw found (rw until (ground arith))

  asks_other-Stays :
      (a b : Text) (end now : ℕ) (o : Option ℕ) (es : Entries)
      → b ≢ a
      → Locked limits a end es
      → Stays a end es (retry_locked b now o es).1
  unfolding retry_locked
  asks_other-Stays a b end now none es other locked = (locked, omega arith)
  asks_other-Stays a b end now (some until) es other locked = elim (Bool-cases (leb until now)) [
    | inl e ↦ rw e (remove-Stays a b end es other locked)
    | inr e ↦ rw e (locked, omega arith)
  ]

  assign-Stays :
      (a b : Text) (end : ℕ) (x : Entry) (es : Entries)
      → b ≢ a
      → Locked limits a end es
      → Stays a end es (assign b x es)
  assign-Stays a b end x es other (e, found, until) =
      ((e, lookup-assign_other a b x es other ∙ found, until), length-assign-le b x es)

  count-Stays :
      (a b : Text) (end now : ℕ) (x : Entry) (es : Entries)
      → b ≢ a
      → Locked limits a end es
      → Stays a end es (count limits b now x es).1
  unfolding count
  count-Stays a b end now x es other locked =
      elim (Bool-cases (leb limits.max_failures (x.failures + 1))) [
        | inl e ↦ rw e (assign-Stays a b end _ es other locked)
        | inr e ↦ rw e (assign-Stays a b end _ es other locked)
      ]

  -- The entry of a failed address, which is not locked where its failure is counted.
  entry_other :
      (a b : Text) (end : ℕ) (o : Option Entry) (es : Entries)
      → Locked limits a end es
      → lookup b es ≡ o
      → ((x : Entry) → o ≡ some x → x.until ≡ none)
      → b ≢ a
  entry_other a b end none es (e, found, until) h open_ same =
      ground (arith, ap (λ c. lookup c es) same)
  entry_other a b end (some x) es (e, found, until) h open_ same =
      let same_entry : some x ≡ some e = ground (arith, ap (λ c. lookup c es) same) in
      let none_left = open_ x refl in ground arith

  fails_known-Stays :
      (a b : Text) (end now : ℕ) (x : Entry) (o : Option ℕ) (es : Entries)
      → Locked limits a end es
      → lookup b es ≡ some x
      → x.until ≡ o
      → Stays a end es (count_known limits b now x o es).1
  unfolding count_known
  fails_known-Stays a b end now x none es locked h e =
      let other = entry_other a b end (some x) es locked h (λ y same. ground arith) in
      count-Stays a b end now x es other locked
  fails_known-Stays a b end now x (some until) es locked h e = (locked, omega arith)

  room_enough : (es : Entries) → length es < limits.max_tracked → make_room limits es ≡ some es
  unfolding make_room
  room_enough es h = ground arith

  -- What a call leaves.
  abbrev Left : Text → ℕ → Entries → Option Entries → Type 0
  Left a end es o = (after : Entries) × (o ≡ some after) × Stays a end es after

  failed_entry-Left :
      (a b : Text) (end now : ℕ) (o : Option Entry) (es : Entries)
      → length es < limits.max_tracked
      → Locked limits a end es
      → lookup b es ≡ o
      → Left a end es (failed_entry limits b now o es >>= (λ r. some r.1))
  unfolding failed_entry
  failed_entry-Left a b end now none es small locked h =
      let other = entry_other a b end none es locked h (λ x e. absurd (ground arith)) in
      let made : Entry = record { failures = 0; first = now; until = none } in
      (
        (count limits b now made es).1,
        rw (room_enough es small) refl,
        count-Stays a b end now made es other locked,
      )
  failed_entry-Left a b end now (some x) es small locked h =
      (_, refl, fails_known-Stays a b end now x x.until es locked h refl)

  expire-Locked :
      (a : Text) (end now : ℕ) (es : Entries)
      → now < end
      → Locked limits a end es
      → Locked limits a end (expire limits now es)
  unfolding is_over
  expire-Locked a end now es early (e, found, until) =
      (e, lookup-expire limits a now e es found (rw until (ground arith)), until)

  fails-Left :
      (a b : Text) (end now : ℕ) (es : Entries)
      → now < end
      → length es < limits.max_tracked
      → Locked limits a end es
      → Left a end es (failed limits b now es >>= (λ r. some r.1))
  unfolding failed
  fails-Left a b end now es early small locked =
      let kept = expire limits now es in
      let shorter = length-expire limits now es in
      let (after, same, (still, bound)) =
        failed_entry-Left a b end now (lookup b kept) kept (omega (arith, shorter))
          (expire-Locked a end now es early locked) refl in
      (after, same, (still, omega (arith, bound, shorter)))

  asks_entry-Stays :
      (a b : Text) (end now : ℕ) (o : Option Entry) (es : Entries)
      → b ≢ a
      → Locked limits a end es
      → Stays a end es (retry_entry b now o es).1
  unfolding retry_entry
  asks_entry-Stays a b end now none es other locked = (locked, omega arith)
  asks_entry-Stays a b end now (some x) es other locked =
      asks_other-Stays a b end now x.until es other locked

  asks-Stays :
      (a b : Text) (end now : ℕ) (es : Entries)
      → now < end
      → Locked limits a end es
      → Stays a end es (retry_after b now es).1
  unfolding retry_after
  asks-Stays a b end now es early locked = elim (Bool-cases (b == a)) [
    | inl e ↦
        let same = (eq_iff b a).0 e in
        let kept = asks_own a end now es early locked in rw same (rw kept (locked, omega arith))
    | inr e ↦
        let other : b ≢ a = λ h. ground (arith, eq_iff b a) in
        asks_entry-Stays a b end now (lookup b es) es other locked
  ]

  call-Left :
      (a : Text) (end : ℕ) (c : Call) (es : Entries)
      → IsDuring a end c
      → length es < limits.max_tracked
      → Locked limits a end es
      → Left a end es (after_call c es)
  unfolding after_call succeeded
  call-Left a end (asks b now) es early small locked =
      (_, refl, asks-Stays a b end now es early locked)
  call-Left a end (fails b now) es early small locked = fails-Left a b end now es early small locked
  call-Left a end (logs_in b) es other small locked =
      (_, refl, remove-Stays a b end es other locked)

  calls-Locked :
      (a : Text) (end : ℕ) (cs : List Call) (es : Entries)
      → All (IsDuring a end) cs
      → length es + length cs ≤ limits.max_tracked
      → Locked limits a end es
      → (after : Entries) × (after_calls cs es ≡ some after) × Locked limits a end after
  unfolding after_calls
  calls-Locked a end [] es during room locked = (es, refl, locked)
  calls-Locked a end (c ∷ cs) es during room locked =
      let (mid, step, (still, bound)) =
        call-Left a end c es during.0 (omega (arith, room)) locked in
      let (after, rest, locked') =
        calls-Locked a end cs mid during.1 (omega (arith, room, bound)) still in
      (after, rw step rest, locked')

  -- An address whose failure started a lockout is refused until the lockout ends, whatever calls come
  -- in between: questions and failures of any address, its own included, at times before that end, and
  -- successes of other addresses. The number of remembered addresses and that of the calls have to stay
  -- within max_tracked together, so that no entry is evicted.
  pub lockout_lasts :
      (a : Text) (now later : ℕ) (es es' : Entries) (cs : List Call)
      → failed limits a now es ≡ some (true, es')
      → All (IsDuring a (now + limits.lockout)) cs
      → length es' + length cs ≤ limits.max_tracked
      → later < now + limits.lockout
      → (after : Entries) × (after_calls cs es' ≡ some after) × (0 < (retry_after a later after).0)
  lockout_lasts a now later es es' cs h during room early =
      let locked = failed-Locked limits a now es es' h in
      let (after, same, still) = calls-Locked a (now + limits.lockout) cs es' during room locked in
      (after, same, retry_after-Locked limits a (now + limits.lockout) later after still early)
