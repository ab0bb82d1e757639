-- ===== src/Store/File/Keeps.antt =====
-- `mutate` never leaves a data file that cannot be loaded.

use mathlib.Core.Logic.{ite}
use librsswitch.Base.{◌≡◌, refl, ap, ◌∙◌, true, false, Bool, not, inl, inr, if◌then◌else◌}
use librsswitch.Base.Result.{Result, ok, err}
use librsswitch.Jsonutil.{Stdlib}
use librsswitch.Model.Types.{Document}
use librsswitch.Model.Valid.{IsValid}
use librsswitch.Store.File.{
  Disk, Failure, store_error, Answers, Acquired, acquired, timed_out, cannot_lock, load, load_file,
  write, write_if_changed, document_discrete, after_fn, run_locked, with_lock, release, mutate,
}
use librsswitch.Store.File.Write.{RoundTrips, load-IsValid, load-text_of_file, write_atomic}

module _ (lib : Stdlib) (E : Type 0) where
  -- The data file holds a document.
  abbrev pub Loads : Disk → Type 0
  Loads disk = (d : Document) × (load lib {E = E} disk ≡ ok d)

  load_same : (a b : Disk) → a.file ≡ b.file → load lib {E = E} a ≡ load lib {E = E} b
  unfolding load
  load_same a b h = ap (load_file lib {E = E}) h

  same_file-Loads : (a b : Disk) → a.file ≡ b.file → Loads b → Loads a
  same_file-Loads a b h (d, e) = (d, load_same a b h ∙ e)

  write-Loads :
      (d : Document) (sys : Answers) (disk : Disk)
      → IsValid d
      → RoundTrips lib d
      → Loads disk
      → Loads (write lib {E = E} d sys disk).1
  write-Loads d sys disk valid round loads =
      let (r, after) = write lib {E = E} d sys disk in
      let (whole, _, _, _) = write_atomic lib d sys disk r after refl in
      elim whole [
        | inl (kept, _) ↦ same_file-Loads after disk kept loads
        | inr (p, encoded, stored) ↦ (d, load-text_of_file lib d p after valid round encoded stored)
      ]

  module _ {A : Type 0} where
    ite-Loads :
        {P : Type 0} (q : Dec P) (x y : Result (Failure E) A × Disk)
        → Loads x.1
        → Loads y.1
        → Loads (ite {C = Result (Failure E) A × Disk} q x y).1
    ite-Loads (yes p) x y hx hy = hx
    ite-Loads (no p) x y hx hy = hy

    write_if_changed-Loads :
        (a : A) (before d : Document) (sys : Answers) (disk : Disk)
        → IsValid d
        → RoundTrips lib d
        → Loads disk
        → Loads (write_if_changed lib {E = E} a before d sys disk).1
    unfolding write_if_changed
    write_if_changed-Loads a before d sys disk valid round loads =
        ite-Loads (document_discrete d before) _ _ loads (write-Loads d sys disk valid round loads)

    -- What a function under `mutate` has to keep, and the standard library to read back.
    abbrev pub Keeps : (Document → Result E (A × Document)) → Type 0
    Keeps fn =
        (d d' : Document) (a : A) → IsValid d → fn d ≡ ok (a, d') → IsValid d' × RoundTrips lib d'

    after_fn-Loads :
        (o : Result E (A × Document)) (before : Document) (sys : Answers) (disk : Disk)
        → ((a : A) (d : Document) → o ≡ ok (a, d) → IsValid d × RoundTrips lib d)
        → Loads disk
        → Loads (after_fn lib o before sys disk).1
    unfolding after_fn
    after_fn-Loads (err e) before sys disk keeps loads = loads
    after_fn-Loads (ok (a, d)) before sys disk keeps loads =
        let (valid, round) = keeps a d refl in
        write_if_changed-Loads a before d sys disk valid round loads

    run_locked-Loads :
        (fn : Document → Result E (A × Document)) (o : Result (Failure E) Document) (sys : Answers)
        (disk : Disk)
        → Keeps fn
        → load lib {E = E} disk ≡ o
        → Loads disk
        → Loads (run_locked lib fn o sys disk).1
    unfolding run_locked
    run_locked-Loads fn (err e) sys disk keeps h loads = loads
    run_locked-Loads fn (ok before) sys disk keeps h loads =
        after_fn-Loads (fn before) before sys disk
          (λ a d. keeps before d a (load-IsValid lib disk before h)) loads

    release-Loads : (r : Result (Failure E) A × Disk) → Loads r.1 → Loads (release r).1
    unfolding release
    release-Loads (r, disk) h = same_file-Loads _ disk refl h

    with_lock-Loads :
        (lock : Acquired) (fn : Document → Result E (A × Document)) (sys : Answers) (disk : Disk)
        → Keeps fn
        → Loads disk
        → Loads (with_lock lib lock fn sys disk).1
    unfolding with_lock
    with_lock-Loads acquired fn sys disk keeps loads =
        let held : Disk = record disk { locked = true } in
        release-Loads (run_locked lib fn (load lib {E = E} held) sys held) (
          run_locked-Loads fn (load lib {E = E} held) sys held keeps refl
            (same_file-Loads held disk refl loads))
    with_lock-Loads timed_out fn sys disk keeps loads = loads
    with_lock-Loads cannot_lock fn sys disk keeps loads = loads

    if-Loads :
        (b : Bool) (x y : Result (Failure E) A × Disk)
        → Loads x.1
        → Loads y.1
        → Loads (if b then x else y).1
    if-Loads true x y hx hy = hx
    if-Loads false x y hx hy = hy

    -- Whatever the function and the system calls answer, `mutate` leaves a data file that can be
    -- loaded, where it found one. The function has to keep the invariant, and the standard library
    -- to read back what it writes.
    pub mutate-Loads :
        (fn : Document → Result E (A × Document)) (sys : Answers) (disk : Disk)
        → Keeps fn
        → Loads disk
        → Loads (mutate lib fn sys disk).1
    unfolding mutate
    mutate-Loads fn sys disk keeps loads =
        if-Loads (not disk.has_parent) (err store_error, disk) (with_lock lib sys.lock fn sys disk)
          loads (with_lock-Loads sys.lock fn sys disk keeps loads)
