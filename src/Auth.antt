-- ===== src/Auth.antt =====
-- The class LoginLimiter of examples/web/rsswitch_web/auth.py. Times are microseconds of the
-- monotonic clock, and each method gets the reading of the clock that it takes under the lock.
pub mod Bounds
pub mod Lockout
pub mod Hook
use librsswitch.Base.{
  ℕ, suc, ◌+◌, ◌-◌, ◌/◌, Bool, true, false, not, ◌&&◌, ◌||◌, List, [], ◌∷◌, ◌++◌, Option, none,
  some, length, ltb, leb, ◌==◌ as nat_eq, if◌then◌else◌,
}
use librsswitch.Base.Opt.{◌>>=◌}
use librsswitch.Base.Text.{Text, ◌==◌, lt_text}

abbrev pub second : ℕ
second = 1000000

-- The arguments of the constructor. The defaults are MAX_FAILURES, FAILURE_WINDOW, LOCKOUT and
-- MAX_TRACKED.
pub record Limits : Type 0 where
  pub max_failures : ℕ
  pub window : ℕ
  pub lockout : ℕ
  pub max_tracked : ℕ

abbrev pub default_limits : Limits
default_limits = record {
  max_failures = 5;
  window = 60000000;
  lockout = 60000000;
  max_tracked = 256;
}

-- [failures, first failure at, locked until or None]
pub record Entry : Type 0 where
  pub failures : ℕ
  pub first : ℕ
  pub until : Option ℕ

-- The dict from addresses to entries, in the order of insertion.
abbrev pub Entries : Type 0
Entries = List (Text × Entry)

unfoldable pub lookup : Text → Entries → Option Entry
lookup addr [] = none
lookup addr ((a, e) ∷ es) = if a == addr then some e else lookup addr es

-- `del` and `pop`
unfoldable pub remove : Text → Entries → Entries
remove addr [] = []
remove addr ((a, e) ∷ es) = if a == addr then es else (a, e) ∷ remove addr es

-- Assignment to a key: in place, or at the end where the key is new.
unfoldable pub assign : Text → Entry → Entries → Entries
assign addr entry [] = (addr, entry) ∷ []
assign addr entry ((a, e) ∷ es) =
    if a == addr then (a, entry) ∷ es else (a, e) ∷ assign addr entry es

-- `max(1, math.ceil(left))`, in seconds
unfoldable pub wait_seconds : ℕ → ℕ
wait_seconds left = let n = (left + 999999) / 1000000 in if ltb 1 n then n else 1

unfoldable pub retry_locked : Text → ℕ → Option ℕ → Entries → ℕ × Entries
unfolding wait_seconds
retry_locked addr now none es = (0, es)
retry_locked addr now (some until) es =
    if leb until now then (0, remove addr es) else (wait_seconds (until - now), es)

unfoldable pub retry_entry : Text → ℕ → Option Entry → Entries → ℕ × Entries
unfolding retry_locked
retry_entry addr now none es = (0, es)
retry_entry addr now (some e) es = retry_locked addr now e.until es

unfoldable pub retry_after : Text → ℕ → Entries → ℕ × Entries
unfolding retry_entry
retry_after addr now es = retry_entry addr now (lookup addr es) es

unfoldable pub succeeded : Text → Entries → Entries
succeeded addr es = remove addr es

-- `min` of pairs of a time and an address, by the order of tuples.
unfoldable pub earlier : (ℕ × Text) → (ℕ × Text) → Bool
earlier (t, a) (v, b) = ltb t v || (nat_eq t v && lt_text a b)

unfoldable pub least : (ℕ × Text) → List (ℕ × Text) → ℕ × Text
unfolding earlier
least p [] = p
least p (q ∷ qs) = if earlier q p then least q qs else least p qs

-- The list `unlocked`
unfoldable pub unlocked : Entries → List (ℕ × Text)
unlocked [] = []
unlocked ((a, e) ∷ es) = elim e.until [
  | none ↦ (e.first, a) ∷ unlocked es
  | some until ↦ unlocked es
]

-- The ends of the locks. The code reads it only where every entry is locked.
unfoldable pub lock_ends : Entries → List (ℕ × Text)
lock_ends [] = []
lock_ends ((a, e) ∷ es) = elim e.until [
  | none ↦ lock_ends es
  | some until ↦ (until, a) ∷ lock_ends es
]

-- `none` is the ValueError of `min` without an argument.
unfoldable pub evict_locked : List (ℕ × Text) → Entries → Option Entries
evict_locked [] es = none
evict_locked (p ∷ ps) es = some (remove (least p ps).1 es)

unfoldable pub evict_one : List (ℕ × Text) → Entries → Option Entries
unfolding evict_locked
evict_one [] es = evict_locked (lock_ends es) es
evict_one (p ∷ ps) es = some (remove (least p ps).1 es)

unfoldable pub evict : Entries → Option Entries
unfolding evict_one
evict es = evict_one (unlocked es) es

module _ (limits : Limits) where
  unfoldable pub is_over : ℕ → Entry → Bool
  is_over now e = elim e.until [
    | none ↦ ltb limits.window (now - e.first)
    | some until ↦ leb until now
  ]

  unfoldable pub expire : ℕ → Entries → Entries
  expire now [] = []
  expire now ((a, e) ∷ es) =
      let rest = expire now es in if is_over now e then rest else (a, e) ∷ rest

  -- The part of `failed` after the entry has been found or made.
  unfoldable pub count : Text → ℕ → Entry → Entries → Bool × Entries
  count addr now e es =
      if leb limits.max_failures (e.failures + 1)
      then (true, assign addr (record e { failures = 0; until = some (now + limits.lockout) }) es)
      else (false, assign addr (record e { failures = e.failures + 1 }) es)

  unfoldable pub count_known : Text → ℕ → Entry → Option ℕ → Entries → Bool × Entries
  unfolding count
  count_known addr now e none es = count addr now e es
  count_known addr now e (some until) es = (false, es)

  unfoldable pub make_room : Entries → Option Entries
  make_room es = if leb limits.max_tracked (length es) then evict es else some es

  unfoldable pub failed_entry : Text → ℕ → Option Entry → Entries → Option (Bool × Entries)
  unfolding count_known make_room
  failed_entry addr now none es = do
    roomy ← make_room es
    some (count addr now (record { failures = 0; first = now; until = none }) roomy)
  failed_entry addr now (some e) es = some (count_known addr now e e.until es)

  unfoldable pub failed : Text → ℕ → Entries → Option (Bool × Entries)
  unfolding failed_entry
  failed addr now es = failed_entry addr now (lookup addr (expire now es)) (expire now es)
