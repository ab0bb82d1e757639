-- ===== src/Auth/Hook/Vouched.antt =====
-- Only right credentials are admitted, in whatever order the requests take their turns.
use mathlib.Core.Path.{subst}
use librsswitch.Base.{
  ◌≡◌, refl, ℕ, zero, suc, Bool, Bool-cases, true, false, List, [], ◌∷◌, ◌++◌, Option, none, some,
  inl, inr, All, All-append, arith, sym,
}
use librsswitch.Base.Text.{Text, ◌==◌, contains, eq_iff}
use librsswitch.Auth.{retry_after, failed, Entries}
use librsswitch.Auth.Hook.{
  Digest, Site, admitted, Phase, arrived, known, queued, holding, checking, verified, cached, done,
  Thread, Shared, drop, remember, if_locked, if_cached, with_credentials, after_failed,
  after_second_look, after_second_wait, is_accepted, acquire, turn, move, move_at, Event, arrives,
  runs, happen, play,
}

module _ (site : Site) where
  -- The digest of a header with the right credentials.
  abbrev pub Vouched : Digest → Type 0
  Vouched d = (header : Text) × (site.sha256 header ≡ d) × (is_accepted site header ≡ true)

  -- What a phase says of the header of its thread.
  abbrev pub Justified : Text → Phase → Type 0
  Justified header (verified true) = is_accepted site header ≡ true
  Justified header cached = is_accepted site header ≡ true
  Justified header (done admitted) = Vouched (site.sha256 header)
  Justified header _ = Unit {0}

  All-contains : (d : Digest) (ds : List Digest) → contains d ds ≡ true → All Vouched ds → Vouched d
  unfolding contains
  All-contains d [] h all = ground arith
  All-contains d (e ∷ ds) h all = elim (Bool-cases (d == e)) [
    | inl same ↦ subst Vouched (sym ((eq_iff d e).0 same)) all.0
    | inr other ↦ All-contains d ds (ground arith) all.1
  ]

  drop-All : (n : ℕ) (ds : List Digest) → All Vouched ds → All Vouched (drop n ds)
  unfolding drop
  drop-All zero ds h = h
  drop-All (suc n) [] h = tt
  drop-All (suc n) (d ∷ ds) h = drop-All n ds h.1

  remember-All :
      (d : Digest) (cache : List Digest)
      → Vouched d
      → All Vouched cache
      → All Vouched (remember d cache)
  unfolding remember
  remember-All d cache hd h = elim (Bool-cases (contains d cache)) [
    | inl e ↦ rw e h
    | inr e ↦ rw e (drop-All _ (cache ++ d ∷ []) (All-append Vouched cache (d ∷ []) h (hd, tt)))
  ]

  if_locked-Justified :
      (header : Text) (wait : ℕ) (next : Phase)
      → Justified header next
      → Justified header (if_locked wait next)
  unfolding if_locked
  if_locked-Justified header zero next h = h
  if_locked-Justified header (suc n) next h = tt

  with_credentials-Justified :
      (header : Text) (c : Option (Text × Text)) → Justified header (with_credentials c)
  unfolding with_credentials
  with_credentials-Justified header none = tt
  with_credentials-Justified header (some c) = tt

  if_cached-Justified :
      (header : Text) (b : Bool) (cache : List Digest)
      → contains (site.sha256 header) cache ≡ b
      → All Vouched cache
      → Justified header (if_cached b queued)
  unfolding if_cached
  if_cached-Justified header true cache e h = All-contains (site.sha256 header) cache e h
  if_cached-Justified header false cache e h = tt

  -- A phase and the cache after it.
  abbrev Kept : Text → Phase × Shared → Type 0
  Kept header (phase, sh) = Justified header phase × All Vouched sh.cache

  after_second_look-Kept :
      (header : Text) (b : Bool) (sh : Shared)
      → contains (site.sha256 header) sh.cache ≡ b
      → All Vouched sh.cache
      → Kept header (after_second_look b sh)
  unfolding after_second_look
  after_second_look-Kept header true sh e h = (All-contains (site.sha256 header) sh.cache e h, h)
  after_second_look-Kept header false sh e h = (tt, h)

  acquire-Kept :
      (header : Text) (b : Bool) (sh : Shared)
      → All Vouched sh.cache
      → Kept header (acquire site header b sh)
  unfolding acquire
  acquire-Kept header true sh h = (tt, h)
  acquire-Kept header false sh h = after_second_look-Kept header _ sh refl h

  after_second_wait-Kept :
      (header : Text) (wait : ℕ) (sh : Shared)
      → All Vouched sh.cache
      → Kept header (after_second_wait wait sh)
  unfolding after_second_wait
  after_second_wait-Kept header zero sh h = (tt, h)
  after_second_wait-Kept header (suc n) sh h = (tt, h)

  verified-Justified :
      (header : Text) (b : Bool) → is_accepted site header ≡ b → Justified header (verified b)
  verified-Justified header true e = e
  verified-Justified header false e = tt

  after_failed-Kept :
      (header : Text) (o : Option (Bool × Entries)) (sh : Shared)
      → All Vouched sh.cache
      → Kept header (after_failed o sh)
  unfolding after_failed
  after_failed-Kept header none sh h = (tt, h)
  after_failed-Kept header (some (b, es)) sh h = (tt, h)

  turn-Kept :
      (now : ℕ) (addr header : Text) (phase : Phase) (sh : Shared)
      → Justified header phase
      → All Vouched sh.cache
      → Kept header (turn site now addr header phase sh)
  unfolding turn
  turn-Kept now addr header arrived sh j h = (
    if_locked-Justified header (retry_after addr now sh.entries).0 _
        (with_credentials-Justified header (site.authorization header)),
    h,
  )
  turn-Kept now addr header known sh j h = (if_cached-Justified header _ sh.cache refl h, h)
  turn-Kept now addr header queued sh j h = acquire-Kept header sh.busy sh h
  turn-Kept now addr header holding sh j h = after_second_wait-Kept header _ _ h
  turn-Kept now addr header checking sh j h = (verified-Justified header _ refl, h)
  turn-Kept now addr header (verified true) sh j h =
      (j, remember-All (site.sha256 header) sh.cache (header, refl, j) h)
  turn-Kept now addr header (verified false) sh j h =
      after_failed-Kept header (failed site.limits addr now sh.entries) sh h
  turn-Kept now addr header cached sh j h = ((header, refl, j), h)
  turn-Kept now addr header (done answer) sh j h = (j, h)

  -- Every digest of the cache is of a header with the right credentials, and so is that of every
  -- thread that is admitted or about to be.
  abbrev pub IsGuarded : List Thread × Shared → Type 0
  IsGuarded (ts, sh) = All (λ (t : Thread). Justified t.header t.phase) ts × All Vouched sh.cache

  move_at-IsGuarded :
      (now n : ℕ) (ts : List Thread) (sh : Shared)
      → IsGuarded (ts, sh)
      → IsGuarded (move_at site now n ts sh)
  unfolding move_at move
  move_at-IsGuarded now n [] sh h = h
  move_at-IsGuarded now zero (t ∷ ts) sh h =
      let (j, kept) = turn-Kept now t.addr t.header t.phase sh h.0.0 h.1 in ((j, h.0.1), kept)
  move_at-IsGuarded now (suc n) (t ∷ ts) sh h =
      let (js, kept) = move_at-IsGuarded now n ts sh (h.0.1, h.1) in ((h.0.0, js), kept)

  happen-IsGuarded :
      (e : Event) (ts : List Thread) (sh : Shared)
      → IsGuarded (ts, sh)
      → IsGuarded (happen site e (ts, sh))
  unfolding happen
  happen-IsGuarded (arrives addr header) ts sh h = ((tt, h.0), h.1)
  happen-IsGuarded (runs n now) ts sh h = move_at-IsGuarded now n ts sh h

  -- Whatever requests come in, and in whatever order they take their turns: a request that is admitted
  -- carries a header with the digest of one whose user name and password are right, and the cache
  -- holds digests of such headers only, where that was so before.
  pub play-IsGuarded :
      (es : List Event) (ts : List Thread) (sh : Shared)
      → IsGuarded (ts, sh)
      → IsGuarded (play site es (ts, sh))
  unfolding play
  play-IsGuarded [] ts sh h = h
  play-IsGuarded (e ∷ es) ts sh h = play-IsGuarded es _ _ (happen-IsGuarded e ts sh h)
