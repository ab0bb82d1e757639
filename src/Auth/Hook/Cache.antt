-- ===== src/Auth/Hook/Cache.antt =====
-- The cache of accepted headers is bounded.
use librsswitch.Base.{
  ◌≡◌, ◌≤◌, ◌-◌, ℕ, zero, suc, Bool, Bool-cases, true, false, List, [], ◌∷◌, ◌++◌, Option, none,
  some, inl, inr, length, arith,
}
use librsswitch.Base.Text.{Text, contains}
use librsswitch.Auth.{Entries}
use librsswitch.Auth.{failed, retry_after}
use librsswitch.Auth.Hook.{
  cache_size, Digest, Site, Phase, arrived, known, queued, holding, checking, verified, cached,
  done, Thread, Shared, drop, remember, after_failed, after_second_look, after_second_wait, acquire,
  turn, move, move_at, Event, arrives, runs, happen, play,
}

length-drop : (n : ℕ) (ds : List Digest) → length (drop n ds) ≡ length ds - n
unfolding drop
length-drop zero ds = omega arith
length-drop (suc n) [] = omega arith
length-drop (suc n) (d ∷ ds) = omega (arith, length-drop n ds)

abbrev pub IsSmall : Shared → Type 0
IsSmall sh = length sh.cache ≤ cache_size

remember-IsSmall :
    (d : Digest) (cache : List Digest)
    → length cache ≤ cache_size
    → length (remember d cache) ≤ cache_size
unfolding remember
remember-IsSmall d cache h = elim (Bool-cases (contains d cache)) [
  | inl e ↦ rw e h
  | inr e ↦
      rw e (omega (arith, length-drop (length (cache ++ d ∷ []) - cache_size) (cache ++ d ∷ [])))
]

after_second_look-IsSmall :
    (b : Bool) (sh : Shared) → IsSmall sh → IsSmall (after_second_look b sh).1
unfolding after_second_look
after_second_look-IsSmall true sh h = h
after_second_look-IsSmall false sh h = h

after_second_wait-IsSmall : (n : ℕ) (sh : Shared) → IsSmall sh → IsSmall (after_second_wait n sh).1
unfolding after_second_wait
after_second_wait-IsSmall zero sh h = h
after_second_wait-IsSmall (suc n) sh h = h

after_failed-IsSmall :
    (o : Option (Bool × Entries)) (sh : Shared) → IsSmall sh → IsSmall (after_failed o sh).1
unfolding after_failed
after_failed-IsSmall none sh h = h
after_failed-IsSmall (some (b, es)) sh h = h

module _ (site : Site) where
  acquire-IsSmall :
      (header : Text) (b : Bool) (sh : Shared) → IsSmall sh → IsSmall (acquire site header b sh).1
  unfolding acquire
  acquire-IsSmall header true sh h = h
  acquire-IsSmall header false sh h = after_second_look-IsSmall _ sh h

  turn-IsSmall :
      (now : ℕ) (addr header : Text) (phase : Phase) (sh : Shared)
      → IsSmall sh
      → IsSmall (turn site now addr header phase sh).1
  unfolding turn
  turn-IsSmall now addr header arrived sh h = h
  turn-IsSmall now addr header known sh h = h
  turn-IsSmall now addr header queued sh h = acquire-IsSmall header sh.busy sh h
  turn-IsSmall now addr header holding sh h =
      after_second_wait-IsSmall (retry_after addr now sh.entries).0 _ h
  turn-IsSmall now addr header checking sh h = h
  turn-IsSmall now addr header (verified true) sh h =
      remember-IsSmall (site.sha256 header) sh.cache h
  turn-IsSmall now addr header (verified false) sh h =
      after_failed-IsSmall (failed site.limits addr now sh.entries) sh h
  turn-IsSmall now addr header cached sh h = h
  turn-IsSmall now addr header (done answer) sh h = h

  move_at-IsSmall :
      (now n : ℕ) (ts : List Thread) (sh : Shared)
      → IsSmall sh
      → IsSmall (move_at site now n ts sh).1
  unfolding move_at move
  move_at-IsSmall now n [] sh h = h
  move_at-IsSmall now zero (t ∷ ts) sh h = turn-IsSmall now t.addr t.header t.phase sh h
  move_at-IsSmall now (suc n) (t ∷ ts) sh h = move_at-IsSmall now n ts sh h

  happen-IsSmall :
      (e : Event) (s : List Thread × Shared) → IsSmall s.1 → IsSmall (happen site e s).1
  unfolding happen
  happen-IsSmall (arrives addr header) (ts, sh) h = h
  happen-IsSmall (runs n now) (ts, sh) h = move_at-IsSmall now n ts sh h

  -- Whatever requests come in, and in whatever order they take their turns, the cache never holds more
  -- than eight digests, where it did not before.
  pub play-IsSmall :
      (es : List Event) (s : List Thread × Shared) → IsSmall s.1 → IsSmall (play site es s).1
  unfolding play
  play-IsSmall [] s h = h
  play-IsSmall (e ∷ es) s h = play-IsSmall es _ (happen-IsSmall e s h)
