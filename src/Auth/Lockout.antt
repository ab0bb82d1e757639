-- ===== src/Auth/Lockout.antt =====
-- When a LoginLimiter refuses an address, and for how long.
pub mod Lasts
use librsswitch.Base.{
  ℕ, ◌+◌, ◌-◌, ◌*◌, ◌≤◌, ◌<◌, ◌≡◌, refl, ap, ◌∙◌, Bool, true, false, Bool-cases, Option-cases, List,
  [], ◌∷◌, Option, none, some, inl, inr, All, length, leb, arith,
}
use mathlib.Core.Path.{subst}
use librsswitch.Base.Opt.{◌>>=◌}
use librsswitch.Base.Text.{Text, eq_refl}
use librsswitch.Auth.{
  second, Entry, Entries, lookup, assign, wait_seconds, retry_locked, retry_entry, retry_after,
  make_room, Limits, is_over, expire, count, count_known, failed_entry, failed,
}

lookup-assign : (a : Text) (e : Entry) (es : Entries) → lookup a (assign a e es) ≡ some e
unfolding lookup assign
lookup-assign a e [] = ground (arith, eq_refl a)
lookup-assign a e ((b, f) ∷ es) = ground (arith, lookup-assign a e es)

-- The wait covers what is left of the lock, and no whole second more.
wait_seconds-bounds :
    (left : ℕ)
    → 0 < left
    → (0 < wait_seconds left)
      × (left ≤ second * wait_seconds left)
      × (second * wait_seconds left < left + second)
unfolding wait_seconds
wait_seconds-bounds left h = (ground arith, ground arith, ground arith)

-- An address that is told to wait may try again once it has waited that long.
pub retry_after-enough :
    (a : Text) (now later : ℕ) (es : Entries)
    → 0 < (retry_after a now es).0
    → now + second * (retry_after a now es).0 ≤ later
    → (retry_after a later es).0 ≡ 0
unfolding retry_after retry_entry retry_locked
retry_after-enough a now later es h enough = elim (Option-cases (lookup a es)) [
  | inl e ↦ ground arith
  | inr (x, e) ↦ elim (Option-cases x.until) [
    | inl e' ↦ ground arith
    | inr (t, e') ↦ ground (arith, wait_seconds-bounds (t - now))
  ]
]

module _ (limits : Limits) where
  -- The address is locked until a time.
  abbrev pub Locked : Text → ℕ → Entries → Type 0
  Locked a t es = (e : Entry) × (lookup a es ≡ some e) × (e.until ≡ some t)

  count-Locked :
      (a : Text) (now : ℕ) (e : Entry) (es es' : Entries)
      → count limits a now e es ≡ (true, es')
      → Locked a (now + limits.lockout) es'
  unfolding count
  count-Locked a now e es es' h =
      let made : Entry = record e { failures = 0; until = some (now + limits.lockout) } in
      (made, ground (arith, lookup-assign a made es), refl)

  known :
      (a : Text) (now : ℕ) (x : Entry) (o : Option ℕ) (es es' : Entries)
      → count_known limits a now x o es ≡ (true, es')
      → Locked a (now + limits.lockout) es'
  unfolding count_known
  known a now x none es es' h = count-Locked a now x es es' h
  known a now x (some t) es es' h = absurd (ground arith)

  failed_entry-Locked :
      (a : Text) (now : ℕ) (o : Option Entry) (es es' : Entries)
      → failed_entry limits a now o es ≡ some (true, es')
      → Locked a (now + limits.lockout) es'
  unfolding failed_entry
  failed_entry-Locked a now none es es' h = elim (Option-cases (make_room limits es)) [
    | inl e ↦ absurd (ground arith)
    | inr (roomy, e) ↦
        count-Locked a now (record { failures = 0; first = now; until = none }) roomy es'
          (ground arith)
  ]
  failed_entry-Locked a now (some x) es es' h = known a now x x.until es es' (ground arith)

  pub failed-Locked :
      (a : Text) (now : ℕ) (es es' : Entries)
      → failed limits a now es ≡ some (true, es')
      → Locked a (now + limits.lockout) es'
  unfolding failed
  failed-Locked a now es es' h =
      failed_entry-Locked a now (lookup a (expire limits now es)) (expire limits now es) es' h

  pub retry_after-Locked :
      (a : Text) (end later : ℕ) (es : Entries)
      → Locked a end es
      → later < end
      → 0 < (retry_after a later es).0
  unfolding retry_after retry_entry retry_locked
  retry_after-Locked a end later es (e, found, until) early =
      ground (arith, wait_seconds-bounds (end - later))

  pub lookup-expire :
      (a : Text) (now : ℕ) (e : Entry) (es : Entries)
      → lookup a es ≡ some e
      → is_over limits now e ≡ false
      → lookup a (expire limits now es) ≡ some e
  unfolding lookup expire
  lookup-expire a now e [] h live = cc
  lookup-expire a now e ((b, f) ∷ es) h live = ground (arith, lookup-expire a now e es)

  -- The failures of one address at the times `ts`: whether the last one started a lockout, and the
  -- entries after it.
  unfoldable pub failures_at : Text → List ℕ → Bool × Entries → Option (Bool × Entries)
  failures_at a [] r = some r
  failures_at a (t ∷ ts) r = failed limits a t r.1 >>= failures_at a ts

  -- An address with a count of `k` failures since `first`, not locked.
  abbrev pub Counted : Text → ℕ → ℕ → Entries → Type 0
  Counted a k first es = lookup a es ≡ some (record { failures = k; first = first; until = none })

  failed-Counted :
      (a : Text) (k first now : ℕ) (es : Entries)
      → Counted a k first es
      → now ≤ first + limits.window
      → (es' : Entries) × (failed limits a now es ≡ some (leb limits.max_failures (k + 1), es'))
        × ((k + 1 < limits.max_failures) → Counted a (k + 1) first es')
  unfolding failed failed_entry count_known count is_over
  failed-Counted a k first now es h soon =
      let e : Entry = record { failures = k; first = first; until = none } in
      let kept = expire limits now es in
      let found : lookup a kept ≡ some e = lookup-expire a now e es h (ground arith) in
      elim (Bool-cases (leb limits.max_failures (k + 1))) [
        | inl full ↦ (
          assign a (record e { failures = 0; until = some (now + limits.lockout) }) kept,
          rw found (rw full refl),
          λ less. absurd (ground arith),
        )
        | inr room ↦ (
          _,
          rw found (rw room refl),
          λ less. lookup-assign a (record e { failures = k + 1 }) kept,
        )
      ]

  failures_at-cons :
      (a : Text) (t : ℕ) (ts : List ℕ) (b : Bool) (es : Entries) (r : Bool × Entries)
      → failed limits a t es ≡ some r
      → failures_at a (t ∷ ts) (b, es) ≡ failures_at a ts r
  unfolding failures_at
  failures_at-cons a t ts b es r h = ap (λ o. o >>= failures_at a ts) h

  -- An address that is not locked and has fewer than max_failures counted failures, and fails again at
  -- times within the window of its first failure: a lockout starts with the failure that makes
  -- max_failures, and with none before it.
  pub failures_at-locks :
      (a : Text) (ts : List ℕ) (k first : ℕ) (es : Entries)
      → Counted a k first es
      → All (λ t. t ≤ first + limits.window) ts
      → k < limits.max_failures
      → k + length ts ≤ limits.max_failures
      → (es' : Entries) × (failures_at a ts (false, es)
          ≡ some (leb limits.max_failures (k + length ts), es'))
  unfolding failures_at
  failures_at-locks a [] k first es h soon less all =
      let open_ : leb limits.max_failures (k + 0) ≡ false = ground arith in (es, rw open_ refl)
  failures_at-locks a (t ∷ []) k first es h soon less all =
      let (es', same, counted) = failed-Counted a k first t es h soon.0 in
      (es', failures_at-cons a t [] false es _ same)
  failures_at-locks a (t ∷ t' ∷ ts) k first es h soon less all =
      let (es', same, counted) = failed-Counted a k first t es h soon.0 in
      let room : leb limits.max_failures (k + 1) ≡ false = ground arith in
      let step : failed limits a t es ≡ some (false, es') =
        same ∙ ap (λ (b : Bool). some (b, es')) room in
      let later = counted (ground arith) in
      let (rest, e) =
        failures_at-locks a (t' ∷ ts) (k + 1) first es' later soon.1 (ground arith)
          (ground arith) in
      let one_more : k + 1 + length (t' ∷ ts) ≡ k + length (t ∷ t' ∷ ts) = ground arith in
      (
        rest,
        failures_at-cons a t (t' ∷ ts) false es _ step
            ∙ subst
                (λ n. failures_at a (t' ∷ ts) (false, es') ≡ some (leb limits.max_failures n, rest))
                one_more e,
      )
