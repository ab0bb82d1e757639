-- ===== src/Switching/Counts.antt =====
-- The counts of a report.
use librsswitch.Base.{
  ℕ, ◌≡◌, ◌≤◌, ◌+◌, ◌&&◌, ◌↔◌, length, refl, Bool, true, false, List, [], ◌∷◌, arith,
}
use librsswitch.Switching.{
  Outcome, failed, skipped, Entry, report_of, done, Summary, count_one, summarize,
}

pub results-report_of : (es : List Entry) → (report_of es).results ≡ es
unfolding report_of
results-report_of es = refl

abbrev pub is_done : Outcome → Bool
is_done (done last) = true
is_done (failed info) = false
is_done (skipped info) = false

abbrev pub all_done : List Entry → Bool
all_done [] = true
all_done ((sid, rid, o) ∷ es) = is_done o && all_done es

abbrev pub total : Summary → ℕ
total s = s.ok_count + s.error_count + s.skipped_count

total-count_one : (o : Outcome) (s : Summary) → total (count_one o s) ≡ total s + 1
unfolding count_one
total-count_one (done last) s = omega arith
total-count_one (failed info) s = omega arith
total-count_one (skipped info) s = omega arith

total-summarize : (es : List Entry) (s : Summary) → total (summarize es s) ≡ total s + length es
unfolding summarize
total-summarize [] s = omega arith
total-summarize ((sid, rid, o) ∷ es) s =
    ground (arith, total-summarize es (count_one o s), total-count_one o s)

ok_count-summarize :
    (es : List Entry) (s : Summary)
    → ((summarize es s).ok_count ≤ s.ok_count + length es)
      × ((s.ok_count + length es ≤ (summarize es s).ok_count) ↔ (all_done es ≡ true))
unfolding summarize count_one
ok_count-summarize [] s = (omega arith, ground arith)
ok_count-summarize ((sid, rid, done last) ∷ es) s =
    ground (arith, ok_count-summarize es (record s { ok_count = s.ok_count + 1 }))
ok_count-summarize ((sid, rid, failed info) ∷ es) s =
    ground (arith, ok_count-summarize es (record s { error_count = s.error_count + 1 }))
ok_count-summarize ((sid, rid, skipped info) ∷ es) s =
    ground (arith, ok_count-summarize es (record s { skipped_count = s.skipped_count + 1 }))

-- The counts of a report add up to its entries, and it is ok exactly when every socket is.
pub report_of-counts :
    (es : List Entry)
    → (total (report_of es).summary ≡ length es) × ((report_of es).all_ok ≡ all_done es)
unfolding report_of
report_of-counts es =
    let zero_ : Summary = record { ok_count = 0; error_count = 0; skipped_count = 0 } in
    (ground (arith, total-summarize es zero_), ground (arith, ok_count-summarize es zero_))
