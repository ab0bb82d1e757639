-- ===== src/Auth/Hook/Exclusion.antt =====
-- One password check at a time, and a cache that is bounded.
use librsswitch.Base.{
  ◌≡◌, refl, ap, ◌≤◌, ◌+◌, ℕ, zero, suc, Bool, true, false, List, [], ◌∷◌, Option, none, some,
  arith,
}
use librsswitch.Base.Text.{Text, contains}
use librsswitch.Auth.{retry_after, failed, Entries}
use librsswitch.Auth.Hook.{
  Site, Phase, arrived, known, queued, holding, checking, verified, cached, done, Thread, Shared,
  if_locked, if_cached, with_credentials, after_failed, after_second_look, after_second_wait,
  acquire, turn, move, move_at, Event, arrives, runs, happen, play,
}

-- 1 for a thread that has the verify lock.
abbrev pub holds_lock : Phase → ℕ
holds_lock holding = 1
holds_lock checking = 1
holds_lock _ = 0

abbrev pub holders : List Thread → ℕ
holders [] = 0
holders (t ∷ ts) = holds_lock t.phase + holders ts

abbrev pub taken : Bool → ℕ
taken true = 1
taken false = 0

if_locked-holds : (n : ℕ) (next : Phase) → holds_lock next ≡ 0 → holds_lock (if_locked n next) ≡ 0
unfolding if_locked
if_locked-holds zero next h = h
if_locked-holds (suc n) next h = refl

with_credentials-holds : (c : Option (Text × Text)) → holds_lock (with_credentials c) ≡ 0
unfolding with_credentials
with_credentials-holds none = refl
with_credentials-holds (some c) = refl

if_cached-holds : (b : Bool) → holds_lock (if_cached b queued) ≡ 0
unfolding if_cached
if_cached-holds true = refl
if_cached-holds false = refl

after_failed-holds :
    (o : Option (Bool × Entries)) (sh : Shared)
    → (holds_lock (after_failed o sh).0 ≡ 0) × ((after_failed o sh).1.busy ≡ sh.busy)
unfolding after_failed
after_failed-holds none sh = (refl, refl)
after_failed-holds (some (b, es)) sh = (refl, refl)

module _ (site : Site) where
  -- What one turn gives to the lock and to its thread is the same.
  abbrev Balanced : Phase → Shared → Phase × Shared → Type 0
  Balanced phase sh (phase', sh') =
      holds_lock phase' + taken sh.busy ≡ holds_lock phase + taken sh'.busy

  after_second_look-Balanced :
      (b : Bool) (sh : Shared) → sh.busy ≡ false → Balanced queued sh (after_second_look b sh)
  unfolding after_second_look
  after_second_look-Balanced true sh free = refl
  after_second_look-Balanced false sh free = ap (λ b. 1 + taken b) free

  acquire-Balanced :
      (header : Text) (b : Bool) (sh : Shared)
      → sh.busy ≡ b
      → Balanced queued sh (acquire site header b sh)
  unfolding acquire
  acquire-Balanced header true sh e = refl
  acquire-Balanced header false sh e = after_second_look-Balanced _ sh e

  taken_one : (b : Bool) → 1 ≤ taken b → taken b ≡ 1
  taken_one true h = refl
  taken_one false h = omega arith

  after_second_wait-Balanced :
      (n : ℕ) (sh : Shared) → taken sh.busy ≡ 1 → Balanced holding sh (after_second_wait n sh)
  unfolding after_second_wait
  after_second_wait-Balanced zero sh e = refl
  after_second_wait-Balanced (suc n) sh e = omega arith

  turn-Balanced :
      (now : ℕ) (addr header : Text) (phase : Phase) (sh : Shared)
      → holds_lock phase ≤ taken sh.busy
      → Balanced phase sh (turn site now addr header phase sh)
  unfolding turn
  turn-Balanced now addr header arrived sh h =
      ap (λ n. n + taken sh.busy)
        (if_locked-holds (retry_after addr now sh.entries).0 _
          (with_credentials-holds (site.authorization header)))
  turn-Balanced now addr header known sh h =
      ap (λ n. n + taken sh.busy) (if_cached-holds (contains (site.sha256 header) sh.cache))
  turn-Balanced now addr header queued sh h = acquire-Balanced header sh.busy sh refl
  turn-Balanced now addr header holding sh h =
      after_second_wait-Balanced (retry_after addr now sh.entries).0 _ (taken_one sh.busy h)
  turn-Balanced now addr header checking sh h = omega (arith, taken_one sh.busy h)
  turn-Balanced now addr header (verified true) sh h = refl
  turn-Balanced now addr header (verified false) sh h =
      let (free, same) = after_failed-holds (failed site.limits addr now sh.entries) sh in
      omega (arith, free, ap taken same)
  turn-Balanced now addr header cached sh h = refl
  turn-Balanced now addr header (done answer) sh h = refl

  move_at-holders :
      (now n : ℕ) (ts : List Thread) (sh : Shared)
      → holders ts ≤ taken sh.busy
      → let (ts', sh') = move_at site now n ts sh in
        holders ts' + taken sh.busy ≡ holders ts + taken sh'.busy
  unfolding move_at move
  move_at-holders now n [] sh h = refl
  move_at-holders now zero (t ∷ ts) sh h =
      omega (arith, turn-Balanced now t.addr t.header t.phase sh (omega arith))
  move_at-holders now (suc n) (t ∷ ts) sh h =
      omega (arith, move_at-holders now n ts sh (omega arith))

  -- The verify lock is taken where one thread has it, and free where none has.
  abbrev pub OneHolder : List Thread × Shared → Type 0
  OneHolder (ts, sh) = holders ts ≡ taken sh.busy

  pub happen-OneHolder :
      (e : Event) (ts : List Thread) (sh : Shared)
      → OneHolder (ts, sh)
      → OneHolder (happen site e (ts, sh))
  unfolding happen
  happen-OneHolder (arrives addr header) ts sh h = omega (arith, h)
  happen-OneHolder (runs n now) ts sh h =
      omega (arith, h, move_at-holders now n ts sh (omega arith))

  play-OneHolder :
      (es : List Event) (ts : List Thread) (sh : Shared)
      → OneHolder (ts, sh)
      → OneHolder (play site es (ts, sh))
  unfolding play
  play-OneHolder [] ts sh h = h
  play-OneHolder (e ∷ es) ts sh h = play-OneHolder es _ _ (happen-OneHolder e ts sh h)

  taken_bound : (b : Bool) → taken b ≤ 1
  taken_bound true = omega arith
  taken_bound false = omega arith

  -- Whatever requests come in, and in whatever order they take their turns, at most one of them has
  -- the verify lock, where before it was free and no thread had it, or it was taken and one had it.
  pub play_exclusion :
      (es : List Event) (ts : List Thread) (sh : Shared)
      → OneHolder (ts, sh)
      → holders (play site es (ts, sh)).0 ≤ 1
  play_exclusion es ts sh h =
      omega (arith, play-OneHolder es ts sh h, taken_bound (play site es (ts, sh)).1.busy)
