-- ===== src/Api/Routes/StoreFails.antt =====
-- What a call of the store raises, where its function raises declared statuses only.
use mathlib.Core.Logic.{ite}
use mathlib.Core.Path.{subst}
use librsswitch.Base.{
  ◌≡◌, refl, sym, ◌+◌, Bool, true, false, not, if◌then◌else◌, Option, none, some,
}
use librsswitch.Base.Result.{Result, ok, err}
use librsswitch.Jsonutil.{Bytes, Stdlib}
use librsswitch.Model.Types.{Document}
use librsswitch.Errors.{Abort, Handled}
use librsswitch.Store.File.{
  Disk, Failure, store_error, os_error, raised, Answers, Acquired, acquired, timed_out, cannot_lock,
  load, snapshot, write, put_in_place, clean_up, text_of_file, write_if_changed, after_write,
  document_discrete, after_fn, run_locked, with_lock, release, mutate,
}
use librsswitch.Store.File.Fails.{load-OnlyStoreError}
use librsswitch.Api.Routes.Raises.{IsDeclared, Raises}

-- What `mutate` raises, where it raises what its function has raised.
abbrev pub Fails : {A : Type 0} → Result (Failure Abort) A → Type 0
Fails (ok a) = Unit {0}
Fails (err store_error) = Unit {0}
Fails (err os_error) = Unit {0}
Fails (err (raised e)) = IsDeclared e

if-Fails :
    {A : Type 0} (b : Bool) (x y : Result (Failure Abort) A × Disk)
    → Fails x.0
    → Fails y.0
    → Fails (if b then x else y).0
if-Fails true x y hx hy = hx
if-Fails false x y hx hy = hy

ite-Fails :
    {A P : Type 0} (q : Dec P) (x y : Result (Failure Abort) A × Disk)
    → Fails x.0
    → Fails y.0
    → Fails (ite {C = Result (Failure Abort) A × Disk} q x y).0
ite-Fails (yes p) x y hx hy = hx
ite-Fails (no p) x y hx hy = hy

after_write-Fails :
    {A : Type 0} (a : A) (r : Result (Failure Abort) (Unit {0})) → Fails r → Fails (after_write a r)
unfolding after_write
after_write-Fails a (ok u) h = tt
after_write-Fails a (err store_error) h = tt
after_write-Fails a (err os_error) h = tt
after_write-Fails a (err (raised e)) h = h

-- A result that is a StoreError where it is an error.
only-Fails :
    {A : Type 0} (r : Result (Failure Abort) A)
    → ((e : Failure Abort) → r ≡ err e → e ≡ store_error)
    → Fails r
only-Fails (ok a) h = tt
only-Fails (err e) h =
    subst (λ (x : Failure Abort). Fails {A = Unit {0}} (err x)) (sym (h e refl)) tt

if_read-Fails :
    (b : Bool) (r : Result (Failure Abort) Document)
    → Fails r
    → Fails (if b then r else err store_error)
if_read-Fails true r h = h
if_read-Fails false r h = tt

encoded-Fails :
    (o : Option Bytes) (disk : Disk) (f : Bytes → Result (Failure Abort) (Unit {0}) × Disk)
    → ((p : Bytes) → Fails (f p).0)
    → Fails
        (elim o as (λ z. Result (Failure Abort) (Unit {0}) × Disk) [
          | none ↦ (err store_error, disk)
          | some p ↦ f p
        ]).0
encoded-Fails none disk f h = tt
encoded-Fails (some p) disk f h = h p

module _ (lib : Stdlib) where
  put_in_place-Fails :
      (p : Bytes) (sys : Answers) (disk : Disk) → Fails (put_in_place lib {E = Abort} p sys disk).0
  unfolding put_in_place clean_up
  put_in_place-Fails p sys disk =
      let cleaned = λ (d : Disk).
        if-Fails {A = Unit {0}} sys.unlink (err store_error, d)
          (err os_error, record d { temps = d.temps + 1 }) tt tt in
      if-Fails (not sys.mkstemp) _ _ tt (
        if-Fails (not sys.write) _ _ (cleaned disk) (
          if-Fails (not sys.replace) _ _ (cleaned disk) (if-Fails (not sys.sync_parent) _ _ tt tt)))

  write-Fails :
      (d : Document) (sys : Answers) (disk : Disk) → Fails (write lib {E = Abort} d sys disk).0
  unfolding write
  write-Fails d sys disk =
      encoded-Fails (lib.encode (text_of_file lib d)) disk _ (λ p. put_in_place-Fails p sys disk)

  pub load-Fails : (disk : Disk) → Fails (load lib {E = Abort} disk)
  load-Fails disk = only-Fails _ (load-OnlyStoreError lib disk)

  pub snapshot-Fails : (disk : Disk) → Fails (snapshot lib {E = Abort} disk)
  unfolding snapshot
  snapshot-Fails disk = if_read-Fails disk.has_parent _ (load-Fails disk)

  module _ {A : Type 0} (fn : Document → Handled (A × Document))
      (raises : (d : Document) → Raises (fn d)) where
    after_fn-Fails :
        (o : Handled (A × Document)) (before : Document) (sys : Answers) (disk : Disk)
        → Raises o
        → Fails (after_fn lib o before sys disk).0
    unfolding after_fn write_if_changed
    after_fn-Fails (err e) before sys disk h = h
    after_fn-Fails (ok (a, d)) before sys disk h =
        ite-Fails (document_discrete d before) (ok a, disk) _ tt
          (after_write-Fails a _ (write-Fails d sys disk))

    run_locked-Fails :
        (o : Result (Failure Abort) Document) (sys : Answers) (disk : Disk)
        → Fails o
        → Fails (run_locked lib fn o sys disk).0
    unfolding run_locked
    run_locked-Fails (ok before) sys disk h =
        after_fn-Fails (fn before) before sys disk (raises before)
    run_locked-Fails (err store_error) sys disk h = tt
    run_locked-Fails (err os_error) sys disk h = tt
    run_locked-Fails (err (raised e)) sys disk h = h

    with_lock-Fails :
        (lock : Acquired) (sys : Answers) (disk : Disk) → Fails (with_lock lib lock fn sys disk).0
    unfolding with_lock release
    with_lock-Fails acquired sys disk =
        let held : Disk = record disk { locked = true } in
        run_locked-Fails (load lib held) sys held (load-Fails held)
    with_lock-Fails timed_out sys disk = tt
    with_lock-Fails cannot_lock sys disk = tt

    pub mutate-Fails : (sys : Answers) (disk : Disk) → Fails (mutate lib fn sys disk).0
    unfolding mutate
    mutate-Fails sys disk =
        if-Fails (not disk.has_parent) _ _ tt (with_lock-Fails sys.lock sys disk)
