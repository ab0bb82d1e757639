-- ===== src/Store/File/Mutate.antt =====
-- What `mutate` promises its callers.
use mathlib.Core.Logic.{if_pos, if_neg}
use librsswitch.Base.{◌≡◌, ap, inl, inr, refl, true, false, arith}
use librsswitch.Base.Result.{Result, ok, err, Result-cases}
use librsswitch.Jsonutil.{Stdlib}
use librsswitch.Model.Types.{Document}
use librsswitch.Model.Valid.{IsValid}
use librsswitch.Store.File.{
  Disk, Failure, raised, Answers, acquired, load, snapshot, write, write_if_changed, after_write,
  document_discrete, mutate,
}
use librsswitch.Store.File.Write.{RoundTrips, load-IsValid, load-text_of_file, write_atomic}
use librsswitch.Store.File.Keeps.{Keeps}

module _ (lib : Stdlib) {E A : Type 0} where
  -- A write that returned.
  written-ok :
      (a a' : A) (d : Document) (sys : Answers) (disk after : Disk)
      (r : Result (Failure E) (Unit {0}))
      → IsValid d
      → RoundTrips lib d
      → write lib d sys disk ≡ (r, after)
      → after_write a r ≡ ok a'
      → (a' ≡ a) × (load lib {E = E} after ≡ ok d) × (after.has_parent ≡ disk.has_parent)
  unfolding after_write
  written-ok a a' d sys disk after r valid round h done =
      let (whole, _, _, parent) = write_atomic lib d sys disk r after h in
      let returned : r ≡ ok tt = ground arith in
      elim whole [
        | inl kept ↦ absurd (kept.1 returned)
        | inr (p, encoded, stored) ↦
            (ground arith, load-text_of_file lib d p after valid round encoded stored, parent)
      ]

  -- One write of a changed document, or none of an unchanged one.
  write_if_changed-ok :
      (a a' : A) (before d : Document) (sys : Answers) (disk after : Disk)
      → load lib {E = E} disk ≡ ok before
      → IsValid d
      → RoundTrips lib d
      → write_if_changed lib {E = E} a before d sys disk ≡ (ok a', after)
      → (a' ≡ a) × (load lib {E = E} after ≡ ok d) × (after.has_parent ≡ disk.has_parent)
  unfolding write_if_changed
  write_if_changed-ok a a' before d sys disk after loaded valid round h =
      elim (document_discrete d before) [
        | yes same ↦
            let kept = rw (if_pos (document_discrete d before) same) at h in
            let e : after ≡ disk = ground arith in
            (ground arith, rw (e, same) loaded, ap (λ (x : Disk). x.has_parent) e)
        | no other ↦
            let (r, disk') = write lib {E = E} d sys disk in
            let wrote = rw (if_neg (document_discrete d before) other) at h in
            written-ok a a' d sys disk after r valid round
              (ap (λ (x : Result (Failure E) A × Disk). (r, x.1)) wrote)
              (ap (λ (x : Result (Failure E) A × Disk). x.0) wrote)
      ]

  module _ (fn : Document → Result E (A × Document)) (sys : Answers) (disk : Disk) where
    -- Where the directory exists, the lock is got and the file is loaded, a function that raises changes
    -- nothing: the file, the temporary files and the lock are as
    -- before, and the caller gets what it raised.
    pub mutate_raised :
        (d : Document) (e : E)
        → disk.has_parent ≡ true
        → disk.locked ≡ false
        → sys.lock ≡ acquired
        → load lib {E = E} disk ≡ ok d
        → fn d ≡ err e
        → mutate lib fn sys disk ≡ (err (raised e), disk)
    unfolding mutate load
    mutate_raised d e parent free lock loaded failed = ground arith

    -- Where the directory exists, the lock is got and the file is loaded, a function that leaves that as
    -- it was causes no write: `mutate` returns its result, and the disk is as before.
    pub mutate_unchanged :
        (d : Document) (a : A)
        → disk.has_parent ≡ true
        → disk.locked ≡ false
        → sys.lock ≡ acquired
        → load lib {E = E} disk ≡ ok d
        → fn d ≡ ok (a, d)
        → mutate lib fn sys disk ≡ (ok a, disk)
    unfolding mutate load write_if_changed
    mutate_unchanged d a parent free lock loaded same =
        ground (arith, if_pos {C = Result (Failure E) A × Disk} (document_discrete d d) refl)

    -- A call of `mutate` that returns, for a function that returned on the document of the disk.
    pub mutate_stores :
        (d d' : Document) (a a' : A) (after : Disk)
        → load lib {E = E} disk ≡ ok d
        → fn d ≡ ok (a, d')
        → IsValid d'
        → RoundTrips lib d'
        → mutate lib fn sys disk ≡ (ok a', after)
        → (a' ≡ a) × (snapshot lib {E = E} after ≡ ok d') × (after.locked ≡ false)
    unfolding mutate snapshot load
    mutate_stores d d' a a' after loaded returned valid round h =
        let held : Disk = record disk { locked = true } in
        let (r, disk') = write_if_changed lib {E = E} a d d' sys held in
        let parts : (disk.has_parent ≡ true)
            × (r ≡ ok a')
            × (after ≡ record disk' { locked = false }) =
          (ground arith, ground arith, ground arith) in
        let (same, stored, parent) =
          write_if_changed-ok a a' d d' sys held disk' loaded valid round
            (ap (λ (x : Result (Failure E) A). (x, disk')) parts.1) in
        (same, ground arith, ground arith)

    -- A call of `mutate` that returns: the disk held a document, the function returned the same result
    -- on it, the next `snapshot` is the document that the function left, and the lock is free. The
    -- function has to keep the invariant, and the standard library to read back what it leaves.
    pub snapshot-mutate :
        (a' : A) (after : Disk)
        → Keeps lib E fn
        → mutate lib fn sys disk ≡ (ok a', after)
        → (d d' : Document) × (load lib {E = E} disk ≡ ok d)
          × (fn d ≡ ok (a', d'))
          × (snapshot lib {E = E} after ≡ ok d')
          × (after.locked ≡ false)
    unfolding mutate load
    snapshot-mutate a' after keeps h = elim (Result-cases (load lib {E = E} disk)) [
      | inr (x, e) ↦ absurd (ground arith)
      | inl (d, e) ↦ elim (Result-cases (fn d)) [
        | inr (x, e') ↦ absurd (ground arith)
        | inl ((a, d'), e') ↦
            let (valid, round) = keeps d d' a (load-IsValid lib disk d e) e' in
            let (same, stored, free) = mutate_stores d d' a a' after e e' valid round h in
            (d, d', e, rw same e', stored, free)
      ]
    ]
