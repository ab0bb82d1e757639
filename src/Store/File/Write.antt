-- ===== src/Store/File/Write.antt =====
-- What is on the disk after `_write`, whatever the operating system answers.
use mathlib.Core.List.{Nodup-nil}
use mathlib.Core.Path.{subst}
use librsswitch.Base.{◌+◌, ◌≡◌, ◌⊎◌, inl, inr, refl, ◌≢◌, true, false, Option-cases, some, arith}
use librsswitch.Base.Result.{Result, ok, err, Result-cases}
use librsswitch.Jsonutil.{Bytes, bytes, Stdlib, strict_loads}
use librsswitch.Json.{Value}
use librsswitch.Model.Types.{Document, empty_document}
use librsswitch.Model.Check.{check_document}
use librsswitch.Model.Encode.{document_value}
use librsswitch.Model.Valid.{IsValid}
use librsswitch.Model.Sound.{check_document-IsValid}
use librsswitch.Model.Complete.{check_document-document_value, document_of-document_value}
use librsswitch.Store.File.{
  load_file, File, missing, unreadable, contents, Disk, Failure, store_error, os_error, Answers,
  checked, load, snapshot, text_of_file, put_in_place, write,
}

module _ (lib : Stdlib) where
  -- What the standard library has to do for one document: the bytes that the text of its file is
  -- encoded to are decoded and parsed to the dict again.
  abbrev pub RoundTrips : Document → Type 0
  RoundTrips d =
      (payload : Bytes)
      → lib.encode (text_of_file lib d) ≡ some payload
      → strict_loads lib (bytes payload) ≡ ok (document_value d)

  -- The standard library reads back every document that it writes.
  abbrev pub Codec : Type 0
  Codec = (d : Document) → IsValid d → RoundTrips d

  empty_document-IsValid : IsValid empty_document
  empty_document-IsValid = record { version = refl; rooms = tt; distinct = Nodup-nil }

  module _ {E : Type 0} where
    checked-IsValid : (v : Value) (d : Document) → checked lib {E = E} v ≡ ok d → IsValid d
    unfolding checked
    checked-IsValid v d h = elim (Result-cases (check_document v)) [
      | inl (u, e) ↦
          let (d', e', valid) = check_document-IsValid v e in
          let same : d' ≡ d = ground arith in subst IsValid same valid
      | inr (x, e) ↦ absurd (ground arith)
    ]

    checked-document_value :
        (d : Document) → IsValid d → checked lib {E = E} (document_value d) ≡ ok d
    unfolding checked
    checked-document_value d h =
        ground (arith, check_document-document_value d h, document_of-document_value d)

    load_file-IsValid : (f : File) (d : Document) → load_file lib {E = E} f ≡ ok d → IsValid d
    unfolding load_file
    load_file-IsValid missing d h = subst IsValid (ground arith) empty_document-IsValid
    load_file-IsValid unreadable d h = cc
    load_file-IsValid (contents raw) d h = elim (Result-cases (strict_loads lib (bytes raw))) [
      | inl (v, e) ↦ checked-IsValid v d (ground arith)
      | inr (x, e) ↦ absurd (ground arith)
    ]

    pub load-IsValid : (disk : Disk) (d : Document) → load lib {E = E} disk ≡ ok d → IsValid d
    unfolding load
    load-IsValid disk d h = load_file-IsValid disk.file d h

    -- Whatever the data file holds, a document that `snapshot` returns has the invariant.
    pub snapshot-IsValid :
        (disk : Disk) (d : Document) → snapshot lib {E = E} disk ≡ ok d → IsValid d
    unfolding snapshot
    snapshot-IsValid disk d h = load-IsValid disk d (ground arith)

    -- The file of a document with the invariant is loaded as that document.
    pub load-text_of_file :
        (d : Document) (payload : Bytes) (disk : Disk)
        → IsValid d
        → RoundTrips d
        → lib.encode (text_of_file lib d) ≡ some payload
        → disk.file ≡ contents payload
        → load lib {E = E} disk ≡ ok d
    unfolding load_file load
    load-text_of_file d payload disk valid round encoded stored =
        rw stored (ground (arith, round payload encoded, checked-document_value d valid))

    -- The four ways in which a write ends.
    put_in_place-cases :
        (p : Bytes) (sys : Answers) (disk : Disk) (r : Result (Failure E) (Unit {0})) (after : Disk)
        → put_in_place lib p sys disk ≡ (r, after)
        → ((r ≡ ok tt) × (after ≡ record disk { file = contents p }))
          ⊎ ((r ≡ err store_error) × (after ≡ record disk { file = contents p }))
          ⊎ ((r ≡ err store_error) × (after ≡ disk))
          ⊎ ((r ≡ err os_error)
              × (sys.mkstemp ≡ true)
              × (sys.unlink ≡ false)
              × (after ≡ record disk { temps = disk.temps + 1 }))
    unfolding put_in_place
    put_in_place-cases p sys disk r after h = ground arith

    -- Whatever the system calls of a write answer, the data file is afterwards either as it was, or
    -- the complete text of the document. It is the latter when the write returns. A temporary file is
    -- left over only where it was made and could not be removed: then `_write` raises an OSError, and
    -- the data file is as it was.
    pub write_atomic :
        (d : Document) (sys : Answers) (disk : Disk) (r : Result (Failure E) (Unit {0}))
        (after : Disk)
        → write lib d sys disk ≡ (r, after)
        → (((after.file ≡ disk.file) × (r ≢ ok tt))
            ⊎ ((p : Bytes) × (lib.encode (text_of_file lib d) ≡ some p)
                × (after.file ≡ contents p)))
          × ((after.temps ≡ disk.temps)
              ⊎ ((after.temps ≡ disk.temps + 1)
                  × (r ≡ err os_error)
                  × (sys.mkstemp ≡ true)
                  × (sys.unlink ≡ false)
                  × (after.file ≡ disk.file)))
          × (after.locked ≡ disk.locked)
          × (after.has_parent ≡ disk.has_parent)
    unfolding write
    write_atomic d sys disk r after h = elim (Option-cases (lib.encode (text_of_file lib d))) [
      | inl e ↦ (inl (ground arith, ground arith), inl (ground arith), ground arith, ground arith)
      | inr (p, e) ↦ elim (put_in_place-cases p sys disk r after (ground arith)) [
        | inl done ↦ (inr (p, e, ground arith), inl (ground arith), ground arith, ground arith)
        | inr (inl late) ↦
            (inr (p, e, ground arith), inl (ground arith), ground arith, ground arith)
        | inr (inr (inl early)) ↦
            (inl (ground arith, ground arith), inl (ground arith), ground arith, ground arith)
        | inr (inr (inr (failed, made, stuck, left))) ↦ (
          inl (ground arith, ground arith),
          inr (ground arith, failed, made, stuck, ground arith),
          ground arith,
          ground arith,
        )
      ]
    ]
