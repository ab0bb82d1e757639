-- ===== src/Auth/Bounds.antt =====
-- The number of addresses that a LoginLimiter remembers.
use librsswitch.Base.{
  ℕ, ◌+◌, ◌≤◌, ◌≡◌, refl, Bool, true, Bool-cases, Option-cases, List, [], ◌∷◌, Option, none, some,
  inl, inr, map, All, length, leb, arith,
}
use librsswitch.Base.Text.{Text, contains, eq_iff, eq_refl}
use librsswitch.Auth.{
  Entry, Entries, lookup, remove, assign, earlier, least, unlocked, lock_ends, evict_locked,
  evict_one, evict, Limits, expire, count, count_known, make_room, failed_entry, failed,
}

abbrev addresses : Entries → List Text
addresses = map (λ p. p.0)

abbrev Known : Entries → (ℕ × Text) → Type 0
Known es p = contains p.1 (addresses es) ≡ true

Known-cons :
    (es : Entries) (p : Text × Entry) (qs : List (ℕ × Text))
    → All (Known es) qs
    → All (Known (p ∷ es)) qs
unfolding contains
Known-cons es p [] h = tt
Known-cons es p (q ∷ qs) h = (ground (arith, h.0), Known-cons es p qs h.1)

Known-unlocked : (es : Entries) → All (Known es) (unlocked es)
unfolding unlocked contains
Known-unlocked [] = tt
Known-unlocked ((a, e) ∷ es) = elim (Option-cases e.until) [
  | inl h ↦ rw h (ground (arith, eq_refl a), Known-cons es (a, e) _ (Known-unlocked es))
  | inr (t, h) ↦ rw h (Known-cons es (a, e) _ (Known-unlocked es))
]

Known-lock_ends : (es : Entries) → All (Known es) (lock_ends es)
unfolding lock_ends contains
Known-lock_ends [] = tt
Known-lock_ends ((a, e) ∷ es) = elim (Option-cases e.until) [
  | inl h ↦ rw h (Known-cons es (a, e) _ (Known-lock_ends es))
  | inr (t, h) ↦ rw h (ground (arith, eq_refl a), Known-cons es (a, e) _ (Known-lock_ends es))
]

least-All :
    (P : ℕ × Text → Type 0) (p : ℕ × Text) (ps : List (ℕ × Text)) → P p → All P ps → P (least p ps)
unfolding least
least-All P p [] hp h = hp
least-All P p (q ∷ qs) hp h = elim (Bool-cases (earlier q p)) [
  | inl e ↦ rw e (least-All P q qs h.0 h.1)
  | inr e ↦ rw e (least-All P p qs hp h.1)
]

length-remove :
    (a : Text) (es : Entries)
    → contains a (addresses es) ≡ true
    → length (remove a es) + 1 ≡ length es
unfolding remove contains
length-remove a [] h = cc
length-remove a ((b, e) ∷ es) h = ground (arith, length-remove a es, eq_iff a b, eq_iff b a)

pub length-assign-le :
    (a : Text) (e : Entry) (es : Entries) → length (assign a e es) ≤ length es + 1
unfolding assign
length-assign-le a e [] = omega arith
length-assign-le a e ((b, f) ∷ es) = ground (arith, length-assign-le a e es)

length-assign :
    (a : Text) (e f : Entry) (es : Entries)
    → lookup a es ≡ some f
    → length (assign a e es) ≡ length es
unfolding assign lookup
length-assign a e f [] h = cc
length-assign a e f ((b, g) ∷ es) h = ground (arith, length-assign a e f es)

length-split : (es : Entries) → length (unlocked es) + length (lock_ends es) ≡ length es
unfolding unlocked lock_ends
length-split [] = refl
length-split ((a, e) ∷ es) = ground (arith, length-split es)

abbrev OneLess : Entries → Option Entries → Type 0
OneLess es o = (rest : Entries) × (o ≡ some rest) × (length rest + 1 ≡ length es)

length-evict_locked :
    (ls : List (ℕ × Text)) (es : Entries)
    → All (Known es) ls
    → 1 ≤ length ls
    → OneLess es (evict_locked ls es)
unfolding evict_locked
length-evict_locked [] es k h = absurd (omega arith)
length-evict_locked (p ∷ ps) es k h =
    (remove (least p ps).1 es, refl, length-remove _ es (least-All (Known es) p ps k.0 k.1))

length-evict_one :
    (us : List (ℕ × Text)) (es : Entries)
    → All (Known es) us
    → 1 ≤ length us + length (lock_ends es)
    → OneLess es (evict_one us es)
unfolding evict_one
length-evict_one [] es k h =
    length-evict_locked (lock_ends es) es (Known-lock_ends es) (omega arith)
length-evict_one (p ∷ ps) es k h =
    (remove (least p ps).1 es, refl, length-remove _ es (least-All (Known es) p ps k.0 k.1))

-- An eviction removes one entry, where there is one.
length-evict : (es : Entries) → 1 ≤ length es → OneLess es (evict es)
unfolding evict
length-evict es h =
    length-evict_one (unlocked es) es (Known-unlocked es) (ground (arith, length-split es))

module _ (limits : Limits) where
  pub length-expire : (now : ℕ) (es : Entries) → length (expire limits now es) ≤ length es
  unfolding expire
  length-expire now [] = omega arith
  length-expire now ((a, e) ∷ es) = ground (arith, length-expire now es)

  length-make_room :
      (es : Entries)
      → 1 ≤ limits.max_tracked
      → length es ≤ limits.max_tracked
      → (rest : Entries) × (make_room limits es ≡ some rest)
        × (length rest + 1 ≤ limits.max_tracked)
  unfolding make_room
  length-make_room es h1 h = elim (Bool-cases (leb limits.max_tracked (length es))) [
    | inl e ↦
        let (rest, same, less) = length-evict es (ground arith) in (rest, rw e same, omega arith)
    | inr e ↦ (es, rw e refl, ground arith)
  ]

  length-count-le :
      (a : Text) (now : ℕ) (e : Entry) (es : Entries)
      → length (count limits a now e es).1 ≤ length es + 1
  unfolding count
  length-count-le a now e es = ground (
    arith,
    length-assign-le a (record e { failures = 0; until = some (now + limits.lockout) }) es,
    length-assign-le a (record e { failures = e.failures + 1 }) es,
  )

  length-count_known :
      (a : Text) (now : ℕ) (e : Entry) (o : Option ℕ) (es : Entries)
      → lookup a es ≡ some e
      → length (count_known limits a now e o es).1 ≡ length es
  unfolding count_known count
  length-count_known a now e none es h = ground (
    arith,
    length-assign a (record e { failures = 0; until = some (now + limits.lockout) }) e es h,
    length-assign a (record e { failures = e.failures + 1 }) e es h,
  )
  length-count_known a now e (some t) es h = refl

  -- Counting a failure always works, the `min` of an eviction included, and never makes the limiter
  -- remember more than max_tracked addresses, where that is at least one.
  pub failed-bounded :
      (a : Text) (now : ℕ) (es : Entries)
      → 1 ≤ limits.max_tracked
      → length es ≤ limits.max_tracked
      → (r : Bool × Entries) × (failed limits a now es ≡ some r) × (length r.1 ≤ limits.max_tracked)
  unfolding failed failed_entry
  failed-bounded a now es h1 h =
      let kept = expire limits now es in
      let small : length kept ≤ limits.max_tracked = ground (arith, length-expire now es) in
      elim (Option-cases (lookup a kept)) [
        | inl e ↦
            let (roomy, same, less) = length-make_room kept h1 small in
            let made : Entry = record { failures = 0; first = now; until = none } in
            let bound = length-count-le a now made roomy in
            (count limits a now made roomy, rw e (rw same refl), omega arith)
        | inr (x, e) ↦
            let bound = length-count_known a now x x.until kept e in
            (count_known limits a now x x.until kept, rw e refl, omega arith)
      ]
