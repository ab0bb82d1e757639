-- ===== src/Auth/Hook.antt =====
-- The hook of make_auth_hook in examples/web/rsswitch_web/auth.py. Each request is a thread that
-- goes through phases; a turn is what one thread does from one lock region to the next, and
-- the turns of several threads come in any order. Werkzeug, SHA-256 and the password hash are
-- parameters.
pub mod Vouched
pub mod Exclusion
pub mod Cache
pub mod Progress
use librsswitch.Base.{
  ℕ, zero, suc, ◌-◌, Bool, true, false, ◌&&◌, List, [], ◌∷◌, ◌++◌, Option, none, some, length,
  if◌then◌else◌,
}
use librsswitch.Base.Text.{Text, ◌==◌, contains}
use librsswitch.Auth.{Limits, Entries, retry_after, succeeded, failed}

-- CACHE_SIZE
abbrev pub cache_size : ℕ
cache_size = 8

abbrev pub Digest : Type 0
Digest = List ℕ

-- What the hook is made with, and what it calls. `authorization` is the user name and the password
-- of a header, and `none` for a header that is not of Basic credentials, or a ValueError;
-- `check_password` is check_password_hash with the hash of the configuration, `none` its ValueError.
pub record Site : Type 0 where
  pub username : Text
  pub limits : Limits
  pub authorization : Text → Option (Text × Text)
  pub sha256 : Text → Digest
  pub check_password : Text → Option Bool

-- The hook returns None, or raises: 429 with the seconds to wait, 401, or what is no ApiError.
pub data Answer : Type 0 where
  admitted : Answer
  too_many : ℕ → Answer
  unauthorized : Answer
  crashed : Answer

-- Where a thread is. It has the verify lock in `holding` and in `checking`.
pub data Phase : Type 0 where
  arrived known queued holding checking : Phase
  verified : Bool → Phase
  cached : Phase
  done : Answer → Phase

pub record Thread : Type 0 where
  pub addr : Text
  pub header : Text
  pub phase : Phase

-- What the threads share: the entries of the limiter, the cache, and whether the verify lock is
-- taken.
pub record Shared : Type 0 where
  pub entries : Entries
  pub cache : List Digest
  pub busy : Bool

unfoldable pub drop : ℕ → List Digest → List Digest
drop zero ds = ds
drop (suc n) [] = []
drop (suc n) (d ∷ ds) = drop n ds

-- `cache.append(digest)` and `del cache[:-CACHE_SIZE]`, where the digest is not there.
unfoldable pub remember : Digest → List Digest → List Digest
unfolding drop
remember d cache =
    let longer = cache ++ d ∷ [] in
    if contains d cache then cache else drop (length longer - cache_size) longer

unfoldable pub pass_ok : Option Bool → Bool
pass_ok none = false
pass_ok (some b) = b

-- `locked_out`, by the result of `retry_after`: the phase after it.
unfoldable pub if_locked : ℕ → Phase → Phase
if_locked zero next = next
if_locked (suc wait) next = done (too_many (suc wait))

-- `any(...)` over the cache: the phase after it.
unfoldable pub if_cached : Bool → Phase → Phase
if_cached true next = done admitted
if_cached false next = next

unfoldable pub with_credentials : Option (Text × Text) → Phase
with_credentials none = done unauthorized
with_credentials (some c) = known

abbrev pub at_phase : Thread → Phase → Thread
at_phase t phase = record t { phase = phase }

-- What follows `hook.limiter.failed`.
unfoldable pub after_failed : Option (Bool × Entries) → Shared → Phase × Shared
after_failed none sh = (done crashed, sh)
after_failed (some (locks, es)) sh = (done unauthorized, record sh { entries = es })

-- The second look at the cache under the verify lock, which is released with the answer.
unfoldable pub after_second_look : Bool → Shared → Phase × Shared
after_second_look true sh = (done admitted, sh)
after_second_look false sh = (holding, record sh { busy = true })

-- The second `locked_out`, with the release of the verify lock where it raises.
unfoldable pub after_second_wait : ℕ → Shared → Phase × Shared
after_second_wait zero sh = (checking, sh)
after_second_wait (suc wait) sh = (done (too_many (suc wait)), record sh { busy = false })

module _ (site : Site) where
  -- `user_ok and pass_ok`
  unfoldable pub is_right : Option (Text × Text) → Bool
  unfolding pass_ok
  is_right none = false
  is_right (some (user, password)) = user == site.username && pass_ok (site.check_password password)

  unfoldable pub is_accepted : Text → Bool
  unfolding is_right
  is_accepted header = is_right (site.authorization header)

  -- The wait for the verify lock, and what follows it.
  unfoldable pub acquire : Text → Bool → Shared → Phase × Shared
  unfolding after_second_look
  acquire header true sh = (queued, sh)
  acquire header false sh = after_second_look (contains (site.sha256 header) sh.cache) sh

  -- What a thread does next, when the clock shows `now`.
  unfoldable pub turn : ℕ → Text → Text → Phase → Shared → Phase × Shared
  unfolding if_locked if_cached with_credentials acquire after_second_wait is_accepted remember
      after_failed
  turn now addr header arrived sh =
      let (wait, es) = retry_after addr now sh.entries in
      (if_locked wait (with_credentials (site.authorization header)), record sh { entries = es })
  turn now addr header known sh = (if_cached (contains (site.sha256 header) sh.cache) queued, sh)
  turn now addr header queued sh = acquire header sh.busy sh
  turn now addr header holding sh =
      let (wait, es) = retry_after addr now sh.entries in
      after_second_wait wait (record sh { entries = es })
  turn now addr header checking sh = (verified (is_accepted header), record sh { busy = false })
  turn now addr header (verified true) sh =
      (cached, record sh { cache = remember (site.sha256 header) sh.cache })
  turn now addr header (verified false) sh =
      after_failed (failed site.limits addr now sh.entries) sh
  turn now addr header cached sh =
      (done admitted, record sh { entries = succeeded addr sh.entries })
  turn now addr header (done answer) sh = (done answer, sh)

  unfoldable pub move : ℕ → Thread → Shared → Thread × Shared
  unfolding turn
  move now t sh = let (phase, sh') = turn now t.addr t.header t.phase sh in (at_phase t phase, sh')

  -- A turn of the thread with a number.
  unfoldable pub move_at : ℕ → ℕ → List Thread → Shared → List Thread × Shared
  unfolding move
  move_at now n [] sh = ([], sh)
  move_at now zero (t ∷ ts) sh = let (t', sh') = move now t sh in (t' ∷ ts, sh')
  move_at now (suc n) (t ∷ ts) sh = let (ts', sh') = move_at now n ts sh in (t ∷ ts', sh')

-- A request that comes in, or a turn of the thread with a number, at a time.
pub data Event : Type 0 where
  arrives : Text → Text → Event
  runs : ℕ → ℕ → Event

module _ (site : Site) where
  unfoldable pub happen : Event → List Thread × Shared → List Thread × Shared
  unfolding move_at
  happen (arrives addr header) (ts, sh) =
      ((record { addr = addr; header = header; phase = arrived }) ∷ ts, sh)
  happen (runs n now) (ts, sh) = move_at site now n ts sh

  -- Events in their order.
  unfoldable pub play : List Event → List Thread × Shared → List Thread × Shared
  unfolding happen
  play [] s = s
  play (e ∷ es) s = play es (happen e s)
