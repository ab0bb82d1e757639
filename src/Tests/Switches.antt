-- ===== src/Tests/Switches.antt =====
-- Runs of requests against a data file.
use librsswitch.Base.{Bool, ◌≡◌, ◌∙◌, refl, ap, true, false, List, [], ◌∷◌, none, some}
use librsswitch.Base.Result.{Result, ok}
use librsswitch.Base.Text.{Text, text, ◌==◌}
use librsswitch.Jsonutil.{Bytes, strict_loads, as_result}
use librsswitch.Model.Types.{Document, empty_document, on, Socket}
use librsswitch.Model.Valid.{IsValid}
use librsswitch.Errors.{Abort}
use librsswitch.Store.Find.{find_socket, find_in, or_later}
use librsswitch.Store.Find.Laws.{socket_at}
use librsswitch.Store.Record.{
  address_of, record_ids, record_one, is_recordable, is_newer, same_address, same_kind,
}
use librsswitch.Store.Record.Valid.{record_ids-IsValid}
use librsswitch.Store.File.{
  Disk, Failure, contents, Answers, load, load_file, snapshot, text_of_file, mutate,
}
use librsswitch.Store.File.Write.{load-text_of_file}
use librsswitch.Store.File.Keeps.{Loads}
use librsswitch.Store.File.Succeeds.{AllWell, mutate_succeeds}
use librsswitch.Store.LastSent.{recording, record_last_sent}
use librsswitch.Switching.{recorded}
use librsswitch.Switching.One.{
  World, Switched, is_written, after_record, after_ok, after_answer, send_to, after_lookup,
  after_snapshot, switch_socket,
}
use librsswitch.Switching.One.Laws.{
  switch_socket-Loads, switch_socket_confirmed, switch_socket_recorded,
}
use librsswitch.App.{respond}
use librsswitch.Api.Routes.{Call, create_room, delete_room, serve, run}
use librsswitch.Api.Routes.Statuses.{is_documented, serve_documented}
use librsswitch.Api.Routes.Good.{run-Loads}
use librsswitch.Tests.Data.{
  lamp, kitchen, hall, home, home-IsValid, one_document, ascii, token, token-IsToken,
}
use librsswitch.Tests.Codec.{without_last, counted, counted-Codec}
use librsswitch.Tests.Documents.{all_well, new_disk, fill, no_time, noon}

all_well-AllWell : AllWell all_well
all_well-AllWell = record {
  lock = refl;
  mkstemp = refl;
  write = refl;
  replace = refl;
  sync_parent = refl;
}

mutate_succeeds_example :
    (after : Disk) × (mutate one_document fill all_well new_disk ≡ (ok true, after))
    × (snapshot one_document {E = Bool} after ≡ ok home)
    × (after.locked ≡ false)
unfolding load load_file strict_loads as_result text_of_file text
mutate_succeeds_example =
    mutate_succeeds one_document fill all_well new_disk empty_document home true
      (b'{' ∷ b'}' ∷ b'\n' ∷ []) refl all_well-AllWell refl refl home-IsValid (λ p e. refl) refl

-- The file of the household.
abbrev payload : Document → Bytes
payload d = without_last (text_of_file counted d)

abbrev home_disk : Disk
home_disk = record new_disk { file = contents (payload home) }

home_loads : load counted {E = Abort} home_disk ≡ ok home
home_loads =
    load-text_of_file counted home (payload home) home_disk home-IsValid
      (counted-Codec home home-IsValid) refl refl

home_is_stored : snapshot counted {E = Abort} home_disk ≡ ok home
unfolding snapshot
home_is_stored = home_loads

abbrev calls : List (Call × Answers)
calls =
    (create_room (b'{' ∷ b'}' ∷ []) (token ∷ []), all_well) ∷ (delete_room hall.id, all_well) ∷ []

run-Loads_example : Loads counted Abort (run counted ascii calls home_disk)
run-Loads_example =
    run-Loads counted counted-Codec ascii calls home_disk (token-IsToken, (tt, tt))
      (home, home_loads)

-- rsswitchd answers OK, and no other request comes in between.
abbrev calm : World
calm = record {
  send = λ dev group number data_. none;
  at = noon;
  sys = all_well;
  between = λ disk. disk;
  meanwhile = λ disk. disk;
  afterwards = λ disk. disk;
}

switch_socket-Loads_example :
    Loads counted Abort (switch_socket counted no_time calm lamp.id on home_disk).1
switch_socket-Loads_example =
    switch_socket-Loads counted no_time calm lamp.id on home_disk counted-Codec
      (λ disk h. h, λ disk h. h) (home, home_loads)

found : find_socket home.rooms lamp.id ≡ some (kitchen, lamp)
unfolding find_socket find_in or_later ◌==◌
found = refl

sent : send_to counted no_time calm lamp.id (address_of lamp) on ≡ none
unfolding send_to
sent = refl

switch_socket_confirmed_example :
    (a : Switched) × ((switch_socket counted no_time calm lamp.id on home_disk).0 ≡ ok a)
switch_socket_confirmed_example =
    switch_socket_confirmed counted no_time calm lamp.id on home kitchen lamp home_disk refl
      home_is_stored found sent

abbrev switched_on : Document
switched_on = record home {
  rooms = (record_ids no_time (lamp.id ∷ []) (address_of lamp) on noon home.rooms).1;
}

switched_on-IsValid : IsValid switched_on
switched_on-IsValid =
    record_ids-IsValid no_time (address_of lamp) on noon (lamp.id ∷ []) home home-IsValid

lamp_written :
    (record_ids no_time (lamp.id ∷ []) (address_of lamp) on noon home.rooms).0 ≡ lamp.id ∷ []
unfolding record_ids record_one is_recordable is_newer same_address same_kind find_socket find_in
    or_later ◌==◌
lamp_written = refl

switched :
    (after : Disk) × (a : Switched) × (switch_socket counted no_time calm lamp.id on home_disk
      ≡ (ok a, after))
    × (a.recorded ≡ true)
unfolding switch_socket after_snapshot after_lookup after_answer after_ok after_record send_to
    recorded record_last_sent find_socket find_in or_later ◌==◌ is_written
switched =
    let (after, ran, _, _) =
      mutate_succeeds counted (recording no_time (lamp.id ∷ []) (address_of lamp) on noon) all_well
        home_disk home switched_on _ (payload switched_on) refl all_well-AllWell home_loads refl
        switched_on-IsValid (counted-Codec switched_on switched_on-IsValid) refl in
    (
      after,
      _,
      ap (λ o. after_snapshot counted no_time calm lamp.id on o home_disk) home_is_stored
          ∙ ap
              (λ (q : Result (Failure Abort) (List Text) × Disk).
                after_record counted no_time calm lamp.id (recorded q.0) q.1)
              ran,
      ap is_written lamp_written,
    )

switch_socket_recorded_example :
    (mid : Disk) × (now : Document) × (t : Socket) × (switched.0 ≡ mid)
    × (snapshot counted {E = Abort} mid ≡ ok now)
    × (socket_at now.rooms lamp.id ≡ some t)
    × (t.last_sent ≡ some (record { state = on; at = noon }))
    × (address_of t ≡ address_of lamp)
switch_socket_recorded_example =
    switch_socket_recorded counted no_time calm lamp.id on home home kitchen lamp home_disk
      switched.0 switched.1 counted-Codec home_is_stored found home_loads switched.2 switched.3

serve_documented_example :
    is_documented
      (respond (λ t. t) (serve counted ascii (delete_room kitchen.id) all_well home_disk)).0.status
    ≡ true
serve_documented_example =
    serve_documented counted ascii refl (λ t. t) (delete_room kitchen.id) all_well home_disk
