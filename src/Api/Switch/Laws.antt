-- ===== src/Api/Switch/Laws.antt =====
-- What an All-off answers.
use mathlib.Core.Path.{subst}
use librsswitch.Base.{
  false, ◌≡◌, refl, ap, sym, ◌∙◌, ℕ, List, map, Option, none, some, length, arith, inl, inr,
}
use librsswitch.Base.Result.{Result, Result-cases, ok, err, >>=-eq-ok}
use librsswitch.Base.Text.{Text}
use librsswitch.Jsonutil.{Bytes, Stdlib}
use librsswitch.Json.{Fields}
use librsswitch.Model.Types.{Document, Room, Socket}
use librsswitch.Errors.{Abort, Handled, json_body}
use librsswitch.Errors.Handlers.{Response, json_response}
use librsswitch.Store.File.{Failure}
use librsswitch.Switching.{
  Round, Entry, Report, Batch, sockets_in, report_of, finish_with, finish, chosen, batch_over,
  all_off,
}
use librsswitch.Switching.Results.{ids_of_entry, ids_of_socket, finish-members_of}
use librsswitch.Switching.Counts.{all_done, total, report_of-counts, results-report_of}
use librsswitch.Api.Switch.{
  report_json, report_response, batch_response, after_room, after_body, all_off_route,
}

-- A report about the sockets: one entry for each in their order, counts that add up, and ok exactly
-- when every socket is.
abbrev pub IsReportOf : List (Text × Socket) → Report → Type 0
IsReportOf ss r =
    (map ids_of_entry r.results ≡ map ids_of_socket ss)
    × (total r.summary ≡ length r.results)
    × (r.all_ok ≡ all_done r.results)

finish_with-report :
    (o : Option (List Entry)) (batch batch' : Batch) (r : Report)
    → finish_with o batch ≡ ok (r, batch')
    → (es : List Entry) × (report_of es ≡ r)
unfolding finish_with
finish_with-report none batch batch' r h = ground arith
finish_with-report (some es) batch batch' r h = (es, ground arith)

report-IsReportOf :
    (es : List Entry) (r : Report) (ss : List (Text × Socket))
    → report_of es ≡ r
    → map ids_of_entry r.results ≡ map ids_of_socket ss
    → IsReportOf ss r
report-IsReportOf es r ss e same =
    let (sum, all) = report_of-counts es in
    let here = results-report_of es in
    let counted : (total (report_of es).summary ≡ length (report_of es).results)
        × ((report_of es).all_ok ≡ all_done (report_of es).results) =
      (sum ∙ sym (ap length here), all ∙ sym (ap all_done here)) in
    let (total_, all_) =
      subst (λ (q : Report). (total q.summary ≡ length q.results) × (q.all_ok ≡ all_done q.results))
        e counted in
    (same, total_, all_)

module _ (rounds : ℕ → Round) where
  batch_over-IsReportOf :
      (ss : List (Text × Socket)) (r : Report) (batch : Batch)
      → batch_over rounds ss ≡ ok (r, batch)
      → IsReportOf ss r
  unfolding batch_over finish
  batch_over-IsReportOf ss r batch h =
      let (mid, turned, finished) = >>=-eq-ok _ _ h in
      let (r', done, same) = finish-members_of rounds ss mid turned in
      let (es, e) = finish_with-report _ mid batch r finished in
      let equal : r' ≡ r = ground arith in
      report-IsReportOf es r ss e
        (subst (λ (q : Report). map ids_of_entry q.results ≡ map ids_of_socket ss) equal same)

  module _ (room_id : Option Text) where
    all_off-IsReportOf :
        (d : Document) (r : Report) (batch : Batch)
        → all_off rounds room_id d ≡ ok (r, batch)
        → (rooms : List Room) × (chosen room_id d.rooms ≡ ok rooms)
          × IsReportOf (sockets_in rooms) r
    unfolding all_off
    all_off-IsReportOf d r batch h = elim (Result-cases (chosen room_id d.rooms)) [
      | inl (rooms, e) ↦ (rooms, e, batch_over-IsReportOf (sockets_in rooms) r batch (ground arith))
      | inr (x, e) ↦ absurd (ground arith)
    ]

    -- A response with a report about the sockets of the rooms that were asked for.
    abbrev pub Reports : Result (Failure Abort) Document → Response → Type 0
    Reports now response =
        (d : Document) × (rooms : List Room) × (r : Report) × (now ≡ ok d)
        × (chosen room_id d.rooms ≡ ok rooms)
        × (response ≡ json_response 200 (report_json r))
        × IsReportOf (sockets_in rooms) r

    report_response-ok :
        (o : Result (Failure Abort) (Report × Batch)) (response : Response)
        → report_response o ≡ ok response
        → (r : Report) × (batch : Batch) × (o ≡ ok (r, batch))
          × (response ≡ json_response 200 (report_json r))
    unfolding report_response
    report_response-ok (err e) response h = ground arith
    report_response-ok (ok (r, batch)) response h = (r, batch, refl, ground arith)

    batch_response-Reports :
        (o : Handled (Unit {0})) (now : Result (Failure Abort) Document) (response : Response)
        → batch_response rounds room_id o now ≡ ok response
        → Reports now response
    unfolding batch_response
    batch_response-Reports (err e) now response h = ground arith
    batch_response-Reports (ok u) (err e) response h = ground arith
    batch_response-Reports (ok u) (ok d) response h =
        let (r, batch, e, answered) = report_response-ok _ response h in
        let (rooms, asked, is_report) = all_off-IsReportOf d r batch e in
        (d, rooms, r, refl, asked, answered, is_report)

    after_room-Reports :
        (o : Result (Failure Abort) (Unit {0})) (body : Fields)
        (now : Result (Failure Abort) Document) (response : Response)
        → after_room rounds room_id o body now ≡ ok response
        → Reports now response
    unfolding after_room
    after_room-Reports (err e) body now response h = ground arith
    after_room-Reports (ok u) body now response h = batch_response-Reports _ now response h

    after_body-Reports :
        (o : Handled Fields) (first now : Result (Failure Abort) Document) (response : Response)
        → after_body rounds room_id o first now ≡ ok response
        → Reports now response
    unfolding after_body
    after_body-Reports (err e) first now response h = ground arith
    after_body-Reports (ok body) first now response h = after_room-Reports _ body now response h

    -- An All-off that is answered, whatever rsswitchd and the store said to its commands: the answer is
    -- 200 with one entry for each socket of the rooms that were asked for, in display order, the counts
    -- add up to the entries, and it says ok exactly when every socket is.
    pub all_off_route-Reports :
        (lib : Stdlib) (raw : Bytes) (first now : Result (Failure Abort) Document)
        (response : Response)
        → all_off_route rounds room_id lib raw first now ≡ ok response
        → Reports now response
    unfolding all_off_route
    all_off_route-Reports lib raw first now response h =
        after_body-Reports (json_body lib false raw) first now response h
