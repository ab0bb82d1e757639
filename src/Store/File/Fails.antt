-- ===== src/Store/File/Fails.antt =====
-- How `mutate` fails, and when it does not.
use mathlib.Core.Logic.{ite}
use librsswitch.Base.{◌≡◌, ◌≢◌, refl, true, Option-cases, inl, inr, arith}
use librsswitch.Base.Result.{Result, ok, err}
use librsswitch.Jsonutil.{Bytes, Stdlib}
use librsswitch.Model.Types.{Document}
use librsswitch.Store.File.{
  Disk, Failure, store_error, Answers, Acquired, acquired, timed_out, cannot_lock, load, load_file,
  write, put_in_place, write_if_changed, after_write, document_discrete, text_of_file, after_fn,
  run_locked, with_lock, release, mutate, checked,
}

module _ (lib : Stdlib) {E : Type 0} where
  -- A result that is a StoreError where it is an error.
  abbrev pub OnlyStoreError : {A : Type 0} → Result (Failure E) A → Type 0
  OnlyStoreError r = (e : Failure E) → r ≡ err e → e ≡ store_error

  pub load-OnlyStoreError : (disk : Disk) → OnlyStoreError (load lib {E = E} disk)
  unfolding load load_file checked
  load-OnlyStoreError disk e h = ground arith

  put_in_place-OnlyStoreError :
      (p : Bytes) (sys : Answers) (disk : Disk)
      → sys.unlink ≡ true
      → OnlyStoreError (put_in_place lib {E = E} p sys disk).0
  unfolding put_in_place
  put_in_place-OnlyStoreError p sys disk removed e h = ground arith

  write-OnlyStoreError :
      (d : Document) (sys : Answers) (disk : Disk)
      → sys.unlink ≡ true
      → OnlyStoreError (write lib {E = E} d sys disk).0
  unfolding write
  write-OnlyStoreError d sys disk removed e h =
      elim (Option-cases (lib.encode (text_of_file lib d))) [
        | inl none_encoded ↦ ground arith
        | inr (p, encoded) ↦ put_in_place-OnlyStoreError p sys disk removed e (ground arith)
      ]

  module _ {A : Type 0} where
    after_write-OnlyStoreError :
        (a : A) (r : Result (Failure E) (Unit {0}))
        → OnlyStoreError r
        → OnlyStoreError (after_write a r)
    unfolding after_write
    after_write-OnlyStoreError a (ok _) hr e h = cc
    after_write-OnlyStoreError a (err x) hr e h = hr e (ground arith)

    ite-OnlyStoreError :
        {P : Type 0} (q : Dec P) (a : A) (x y : Result (Failure E) A × Disk)
        → x.0 ≡ ok a
        → OnlyStoreError y.0
        → OnlyStoreError (ite {C = Result (Failure E) A × Disk} q x y).0
    ite-OnlyStoreError (yes p) a x y hx hy e h = cc
    ite-OnlyStoreError (no p) a x y hx hy e h = hy e h

    after_fn-OnlyStoreError :
        (o : Result E (A × Document)) (before : Document) (sys : Answers) (disk : Disk)
        → sys.unlink ≡ true
        → ((e : E) → o ≢ err e)
        → OnlyStoreError (after_fn lib o before sys disk).0
    unfolding after_fn write_if_changed
    after_fn-OnlyStoreError (err x) before sys disk removed returns = absurd (returns x refl)
    after_fn-OnlyStoreError (ok (a, d)) before sys disk removed returns =
        ite-OnlyStoreError (document_discrete d before) a _ _ (λ i. ok a)
          (after_write-OnlyStoreError a _ (write-OnlyStoreError d sys disk removed))

    run_locked-OnlyStoreError :
        (fn : Document → Result E (A × Document)) (o : Result (Failure E) Document) (sys : Answers)
        (disk : Disk)
        → sys.unlink ≡ true
        → ((d : Document) (e : E) → fn d ≢ err e)
        → OnlyStoreError o
        → OnlyStoreError (run_locked lib fn o sys disk).0
    unfolding run_locked
    run_locked-OnlyStoreError fn (err x) sys disk removed returns ho e h = ho e (ground arith)
    run_locked-OnlyStoreError fn (ok before) sys disk removed returns ho e h =
        after_fn-OnlyStoreError (fn before) before sys disk removed (returns before) e h

    with_lock-OnlyStoreError :
        (lock : Acquired) (fn : Document → Result E (A × Document)) (sys : Answers) (disk : Disk)
        → sys.unlink ≡ true
        → ((d : Document) (e : E) → fn d ≢ err e)
        → OnlyStoreError (with_lock lib lock fn sys disk).0
    unfolding with_lock release
    with_lock-OnlyStoreError acquired fn sys disk removed returns e h =
        let held : Disk = record disk { locked = true } in
        run_locked-OnlyStoreError fn (load lib held) sys held removed returns
          (load-OnlyStoreError held) e h
    with_lock-OnlyStoreError timed_out fn sys disk removed returns e h = ground arith
    with_lock-OnlyStoreError cannot_lock fn sys disk removed returns e h = ground arith

    -- Where a temporary file can be removed, a call of `mutate` with a function that does not raise
    -- fails with nothing but a StoreError.
    pub mutate_fails :
        (fn : Document → Result E (A × Document)) (sys : Answers) (disk : Disk) (e : Failure E)
        → sys.unlink ≡ true
        → ((d : Document) (x : E) → fn d ≢ err x)
        → (mutate lib fn sys disk).0 ≡ err e
        → e ≡ store_error
    unfolding mutate
    mutate_fails fn sys disk e removed returns h =
        ground (arith, with_lock-OnlyStoreError sys.lock fn sys disk removed returns e)
