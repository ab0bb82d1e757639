-- ===== src/Store/File.antt =====
-- The class Store of examples/web/rsswitch_web/store.py: reading, the locked read-modify-write and
-- the atomic replacement. What the operating system answers is a parameter of each call.
pub mod Write
pub mod Mutate
pub mod Keeps
pub mod Fails
pub mod Succeeds
use mathlib.Core.Logic.{ite}
use native.Mathlib.Decide.{ℕ_discrete}
use librsswitch.Base.{
  ℕ, ◌+◌, Bool, true, false, not, List, [], ◌∷◌, ◌++◌, Option, none, some, if◌then◌else◌,
}
use librsswitch.Base.Result.{Result, ok, err}
use librsswitch.Base.Text.{Text, text}
use librsswitch.Jsonutil.{Bytes, bytes, Stdlib, strict_loads}
use librsswitch.Json.{Value}
use librsswitch.Model.Types.{Document, empty_document}
use librsswitch.Model.Check.{check_document}
use librsswitch.Model.View.{document_of}
use librsswitch.Model.Encode.{document_value}

-- What `open(self.path, "rb")` and `read` find.
pub data File : Type 0 where
  missing : File
  unreadable : File
  contents : Bytes → File

-- The data directory: whether it exists, the data file, the temporary files that `_write` has left
-- in it, and whether this process holds the lock.
pub record Disk : Type 0 where
  pub has_parent : Bool
  pub file : File
  pub temps : ℕ
  pub locked : Bool

-- StoreError, or an OSError that the code does not turn into one, or what the function given to
-- `mutate` raises.
pub data Failure (E : Type 0) : Type 0 where
  store_error : Failure E
  os_error : Failure E
  raised : E → Failure E

pub data Acquired : Type 0 where
  acquired timed_out cannot_lock : Acquired

-- Which system calls of one `_write` succeed, and whether `unlink` does when it is called on a
-- file that is there.
pub record Answers : Type 0 where
  pub lock : Acquired
  pub mkstemp : Bool
  pub write : Bool
  pub replace : Bool
  pub sync_parent : Bool
  pub unlink : Bool

unfoldable pub require_parent : {E : Type 0} → Disk → Result (Failure E) (Unit {0})
require_parent disk = if disk.has_parent then ok tt else err store_error

unfoldable pub after_write :
    {E A : Type 0} → A → Result (Failure E) (Unit {0}) → Result (Failure E) A
after_write a (ok _) = ok a
after_write a (err e) = err e

-- Whether `json.dumps(data, sort_keys=True)` is the same: dicts that are equal as records have
-- the same keys and values.
unfoldable pub document_discrete : Discrete Document
document_discrete = hlevel ℕ_discrete

unfoldable pub release : {R : Type 0} → R × Disk → R × Disk
release (r, disk) = (r, record disk { locked = false })

module _ (lib : Stdlib) where
  -- `check_document`, and the dict that it accepted as a record.
  unfoldable pub checked : {E : Type 0} → Value → Result (Failure E) Document
  checked v = elim (check_document v) [
    | err e ↦ err store_error
    | ok _ ↦ elim (document_of v) [ none ↦ err store_error | some d ↦ ok d ]
  ]

  unfoldable pub load_file : {E : Type 0} → File → Result (Failure E) Document
  unfolding checked
  load_file missing = ok empty_document
  load_file unreadable = err store_error
  load_file (contents raw) = elim (strict_loads lib (bytes raw)) [
    | err e ↦ err store_error
    | ok v ↦ checked v
  ]

  -- `_load`
  unfoldable pub load : {E : Type 0} → Disk → Result (Failure E) Document
  unfolding load_file
  load disk = load_file disk.file

  -- `snapshot`; `check` is the same with the document thrown away.
  unfoldable pub snapshot : {E : Type 0} → Disk → Result (Failure E) Document
  unfolding require_parent load
  snapshot disk = if disk.has_parent then load disk else err store_error

  unfoldable pub text_of_file : Document → Text
  text_of_file d = lib.json_dumps (document_value d) ++ text "\n"

  -- The handler of `_write`: the temporary file is removed where there is one.
  unfoldable pub clean_up :
      {E : Type 0} → Bool → Answers → Disk → Result (Failure E) (Unit {0}) × Disk
  clean_up false sys disk = (err store_error, disk)
  clean_up true sys disk =
      if sys.unlink
      then (err store_error, disk)
      else (err os_error, record disk { temps = disk.temps + 1 })

  -- `_write` once the text is encoded. After `os.replace` the temporary file is gone, which the
  -- handler passes over.
  unfoldable pub put_in_place :
      {E : Type 0} → Bytes → Answers → Disk → Result (Failure E) (Unit {0}) × Disk
  unfolding clean_up
  put_in_place payload sys disk =
      if not sys.mkstemp
      then clean_up false sys disk
      else if not sys.write
      then clean_up true sys disk
      else if not sys.replace
      then clean_up true sys disk
      else if not sys.sync_parent
      then clean_up false sys (record disk { file = contents payload })
      else (ok tt, record disk { file = contents payload })

  -- `_write`
  unfoldable pub write :
      {E : Type 0} → Document → Answers → Disk → Result (Failure E) (Unit {0}) × Disk
  unfolding text_of_file put_in_place
  write d sys disk = elim (lib.encode (text_of_file d)) [
    | none ↦ (err store_error, disk)
    | some payload ↦ put_in_place payload sys disk
  ]

  unfoldable pub write_if_changed :
      {E A : Type 0} → A → Document → Document → Answers → Disk → Result (Failure E) A × Disk
  unfolding write after_write document_discrete
  write_if_changed a before d sys disk =
      let (r, disk') = write d sys disk in
      ite (document_discrete d before) (ok a, disk) (after_write a r, disk')

  -- What follows `fn(data)`, by its result.
  unfoldable pub after_fn :
      {E A : Type 0}
      → Result E (A × Document)
      → Document
      → Answers
      → Disk
      → Result (Failure E) A × Disk
  unfolding write_if_changed
  after_fn (err e) before sys disk = (err (raised e), disk)
  after_fn (ok (a, d)) before sys disk = write_if_changed a before d sys disk

  -- What `mutate` does while it holds the lock.
  unfoldable pub run_locked :
      {E A : Type 0}
      → (Document → Result E (A × Document))
      → Result (Failure E) Document
      → Answers
      → Disk
      → Result (Failure E) A × Disk
  unfolding after_fn
  run_locked fn (err e) sys disk = (err e, disk)
  run_locked fn (ok before) sys disk = after_fn (fn before) before sys disk

  -- By the answer of the lock.
  unfoldable pub with_lock :
      {E A : Type 0}
      → Acquired
      → (Document → Result E (A × Document))
      → Answers
      → Disk
      → Result (Failure E) A × Disk
  unfolding run_locked release
  with_lock acquired fn sys disk =
      let held = record disk { locked = true } in release (run_locked fn (load held) sys held)
  with_lock timed_out fn sys disk = (err store_error, disk)
  with_lock cannot_lock fn sys disk = (err store_error, disk)

  -- `mutate`
  unfoldable pub mutate :
      {E A : Type 0}
      → (Document → Result E (A × Document))
      → Answers
      → Disk
      → Result (Failure E) A × Disk
  unfolding with_lock
  mutate fn sys disk =
      if not disk.has_parent then (err store_error, disk) else with_lock sys.lock fn sys disk
