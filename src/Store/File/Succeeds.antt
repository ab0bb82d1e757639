-- ===== src/Store/File/Succeeds.antt =====
-- When `mutate` succeeds.
use mathlib.Core.Logic.{ite}
use librsswitch.Base.{◌≡◌, refl, ap, true, false, some, arith}
use librsswitch.Base.Result.{Result, ok, err}
use librsswitch.Jsonutil.{Bytes, Stdlib}
use librsswitch.Model.Types.{Document}
use librsswitch.Model.Valid.{IsValid}
use librsswitch.Store.File.{
  Disk, Failure, Answers, acquired, load, snapshot, text_of_file, write, put_in_place,
  write_if_changed, after_write, document_discrete, mutate,
}
use librsswitch.Store.File.Write.{RoundTrips}
use librsswitch.Store.File.Mutate.{mutate_stores}

-- Every system call of a `mutate` succeeds.
pub record AllWell (sys : Answers) : Type 0 where
  pub lock : sys.lock ≡ acquired
  pub mkstemp : sys.mkstemp ≡ true
  pub write : sys.write ≡ true
  pub replace : sys.replace ≡ true
  pub sync_parent : sys.sync_parent ≡ true

module _ (lib : Stdlib) {E : Type 0} where
  put_in_place-AllWell :
      (p : Bytes) (sys : Answers) (disk : Disk)
      → AllWell sys
      → (put_in_place lib {E = E} p sys disk).0 ≡ ok tt
  unfolding put_in_place
  put_in_place-AllWell p sys disk well =
      ground (arith, well.mkstemp, well.write, well.replace, well.sync_parent)

  write-AllWell :
      (d : Document) (p : Bytes) (sys : Answers) (disk : Disk)
      → AllWell sys
      → lib.encode (text_of_file lib d) ≡ some p
      → (write lib {E = E} d sys disk).0 ≡ ok tt
  unfolding write
  write-AllWell d p sys disk well encoded = ground (arith, put_in_place-AllWell p sys disk well)

  module _ {A : Type 0} where
    after_write-ok :
        (a : A) (r : Result (Failure E) (Unit {0})) → r ≡ ok tt → after_write a r ≡ ok a
    unfolding after_write
    after_write-ok a (ok _) h = refl
    after_write-ok a (err e) h = cc

    ite-ok :
        {P : Type 0} (q : Dec P) (a : A) (x y : Result (Failure E) A × Disk)
        → x.0 ≡ ok a
        → y.0 ≡ ok a
        → (ite {C = Result (Failure E) A × Disk} q x y).0 ≡ ok a
    ite-ok (yes p) a x y hx hy = hx
    ite-ok (no p) a x y hx hy = hy

    write_if_changed-AllWell :
        (a : A) (before d : Document) (p : Bytes) (sys : Answers) (disk : Disk)
        → AllWell sys
        → lib.encode (text_of_file lib d) ≡ some p
        → (write_if_changed lib {E = E} a before d sys disk).0 ≡ ok a
    unfolding write_if_changed
    write_if_changed-AllWell a before d p sys disk well encoded =
        ite-ok (document_discrete d before) a _ _ refl
          (after_write-ok a _ (write-AllWell d p sys disk well encoded))

    mutate_returns :
        (fn : Document → Result E (A × Document)) (sys : Answers) (disk : Disk) (d d' : Document)
        (a : A)
        → disk.has_parent ≡ true
        → sys.lock ≡ acquired
        → load lib {E = E} disk ≡ ok d
        → fn d ≡ ok (a, d')
        → (write_if_changed lib {E = E} a d d' sys (record disk { locked = true })).0 ≡ ok a
        → (mutate lib fn sys disk).0 ≡ ok a
    unfolding mutate load
    mutate_returns fn sys disk d d' a parent lock loaded returned done = ground arith

    -- Where the directory exists, the file is loaded, every system call succeeds and the new document
    -- can be encoded, a function that returns makes `mutate` return: with its result, and with its
    -- document in the next `snapshot`. The function has to keep the invariant at this document, and the
    -- standard library to read back what it wrote.
    pub mutate_succeeds :
        (fn : Document → Result E (A × Document)) (sys : Answers) (disk : Disk) (d d' : Document)
        (a : A) (p : Bytes)
        → disk.has_parent ≡ true
        → AllWell sys
        → load lib {E = E} disk ≡ ok d
        → fn d ≡ ok (a, d')
        → IsValid d'
        → RoundTrips lib d'
        → lib.encode (text_of_file lib d') ≡ some p
        → (after : Disk) × (mutate lib fn sys disk ≡ (ok a, after))
          × (snapshot lib {E = E} after ≡ ok d')
          × (after.locked ≡ false)
    mutate_succeeds fn sys disk d d' a p parent well loaded returned valid round encoded =
        let (r, after) = mutate lib fn sys disk in
        let held : Disk = record disk { locked = true } in
        let returns : r ≡ ok a =
          mutate_returns fn sys disk d d' a parent well.lock loaded returned
            (write_if_changed-AllWell a d d' p sys held well encoded) in
        let whole = ap (λ (x : Result (Failure E) A). (x, after)) returns in
        let (_, stored, free) =
          mutate_stores lib fn sys disk d d' a a after loaded returned valid round whole in
        (after, whole, stored, free)
