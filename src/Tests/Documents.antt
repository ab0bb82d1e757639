-- ===== src/Tests/Documents.antt =====
-- Runs of the store and of the document checks.
use librsswitch.Base.{
  ℕ, ◌≡◌, ◌≢◌, ◌⊎◌, refl, Bool, true, false, List, [], ◌∷◌, Option, none, some, ap, arith,
}
use librsswitch.Base.{◌+◌, ◌↔◌}
use librsswitch.Store.File.{os_error}
use librsswitch.Store.File.Write.{load-text_of_file}
use mathlib.Core.List.{cons≢nil}
use mathlib.Core.Logic.{if_neg}
use librsswitch.Base.Result.{Result, ok, err}
use librsswitch.Base.Text.{Text, text, contains}
use librsswitch.Jsonutil.{Bytes, strict_loads, as_result}
use librsswitch.Model.Types.{Socket, Document, empty_document, on}
use librsswitch.Model.Check.{check_document}
use librsswitch.Model.View.{document_of}
use librsswitch.Model.Encode.{document_value}
use librsswitch.Model.Valid.{IsValid}
use librsswitch.Model.Sound.{check_document-IsValid}
use librsswitch.Model.Complete.{check_document-document_value, check_document-ok_iff_IsValid}
use librsswitch.Store.Find.Laws.{socket_at}
use librsswitch.Store.Record.{address_of, record_ids}
use librsswitch.Store.Record.Spec.{RecordSpec, record_ids-RecordSpec}
use librsswitch.Store.File.{
  missing, contents, Disk, Failure, acquired, Answers, load_file, load, snapshot, write,
  put_in_place, text_of_file, mutate, run_locked, write_if_changed, after_write, release,
  document_discrete, require_parent,
}
use librsswitch.Store.File.Write.{RoundTrips, snapshot-IsValid, write_atomic}
use mathlib.Core.Path.{subst}
use librsswitch.Store.File.Mutate.{mutate_unchanged, snapshot-mutate}
use librsswitch.Tests.Data.{lamp, home, home-IsValid, one_document}

abbrev pub Reply : Type 0
Reply = Result Bool (Bool × Document)

abbrev pub fill : Document → Reply
fill d = ok (true, home)

abbrev keep : Document → Reply
keep d = ok (true, d)

abbrev refuse : Document → Reply
refuse d = err false

abbrev pub all_well : Answers
all_well = record {
  lock = acquired;
  mkstemp = true;
  write = true;
  replace = true;
  sync_parent = true;
  unlink = true;
}

abbrev pub new_disk : Disk
new_disk = record { has_parent = true; file = missing; temps = 0; locked = false }

abbrev pub full_disk : Disk
full_disk = record new_disk { file = contents (b'{' ∷ b'}' ∷ b'\n' ∷ []) }

home≢empty : ¬ (home ≡ empty_document)
home≢empty e = cons≢nil (ap (λ d. d.rooms) e)

pub fill_runs : mutate one_document fill all_well new_disk ≡ (ok true, full_disk)
unfolding mutate run_locked write_if_changed after_write release load load_file write text_of_file
    put_in_place text
fill_runs = ap release (if_neg (document_discrete home empty_document) home≢empty _ _)

snapshot-mutate_example :
    (d d' : Document) × (load one_document {E = Bool} new_disk ≡ ok d)
    × (fill d ≡ ok (true, d'))
    × (snapshot one_document {E = Bool} full_disk ≡ ok d')
    × (full_disk.locked ≡ false)
unfolding strict_loads as_result
snapshot-mutate_example =
    snapshot-mutate one_document fill all_well new_disk true full_disk
      (λ d d' a valid e.
        let same : home ≡ d' = ground arith in
        (subst IsValid same home-IsValid, subst (RoundTrips one_document) same (λ p encoded. refl)))
      fill_runs

mutate_unchanged_example : mutate one_document keep all_well new_disk ≡ (ok true, new_disk)
unfolding load load_file
mutate_unchanged_example =
    mutate_unchanged one_document keep all_well new_disk empty_document true refl refl refl refl
      refl

full_loads : snapshot one_document {E = Bool} full_disk ≡ ok home
unfolding snapshot require_parent strict_loads as_result text_of_file text
full_loads =
    load-text_of_file one_document home (b'{' ∷ b'}' ∷ b'\n' ∷ []) full_disk home-IsValid
      (λ p e. refl) refl refl

snapshot-IsValid_example : IsValid home
snapshot-IsValid_example = snapshot-IsValid one_document {E = Bool} full_disk home full_loads

check_document-IsValid_example :
    (d : Document) × (document_of (document_value home) ≡ some d) × IsValid d
check_document-IsValid_example =
    check_document-IsValid (document_value home) (check_document-document_value home home-IsValid)

check_document-ok_iff_IsValid_example :
    (check_document (document_value home) ≡ ok tt) ↔ IsValid home
check_document-ok_iff_IsValid_example = check_document-ok_iff_IsValid home

write_atomic_example :
    (((full_disk.file ≡ new_disk.file)
        × (◌≢◌ {A = Result (Failure Bool) (Unit {0})} (ok tt) (ok tt)))
      ⊎ ((p : Bytes) × (one_document.encode (text_of_file one_document home) ≡ some p)
          × (full_disk.file ≡ contents p)))
    × ((full_disk.temps ≡ new_disk.temps)
        ⊎ ((full_disk.temps ≡ new_disk.temps + 1)
            × (◌≡◌ {A = Result (Failure Bool) (Unit {0})} (ok tt) (err os_error))
            × (all_well.mkstemp ≡ true)
            × (all_well.unlink ≡ false)
            × (full_disk.file ≡ new_disk.file)))
    × (full_disk.locked ≡ new_disk.locked)
    × (full_disk.has_parent ≡ new_disk.has_parent)
unfolding write text_of_file put_in_place text
write_atomic_example =
    write_atomic one_document {E = Bool} home all_well new_disk (ok tt) full_disk refl

abbrev pub no_time : Text → Option ℕ
no_time t = none

abbrev ids : List Text
ids = lamp.id ∷ []

abbrev pub noon : Text
noon = b'1' ∷ b'2' ∷ []

record_ids-RecordSpec_example :
    let (written, after) = record_ids no_time ids (address_of lamp) on noon home.rooms in
    ((contains lamp.id ids ≡ false)
      × (contains lamp.id written ≡ false)
      × (socket_at after lamp.id ≡ socket_at home.rooms lamp.id))
    ⊎ ((socket_at home.rooms lamp.id ≡ none)
        × (contains lamp.id written ≡ false)
        × (socket_at after lamp.id ≡ none))
    ⊎ ((s s' : Socket) × (contains lamp.id ids ≡ true)
        × (socket_at home.rooms lamp.id ≡ some s)
        × (socket_at after lamp.id ≡ some s')
        × RecordSpec no_time (address_of lamp) on noon (contains lamp.id written) s s')
record_ids-RecordSpec_example =
    record_ids-RecordSpec no_time (address_of lamp) on noon ids home.rooms lamp.id
