-- ===== src/Tests/Starts.antt =====
-- Runs of the configuration and of the command line.
use librsswitch.Base.{
  ◌≡◌, ◌⊎◌, ◌∙◌, refl, ap, true, false, [], ◌∷◌, none, some, arith, if◌then◌else◌,
}
use librsswitch.Base.Int.{pos}
use librsswitch.Base.Result.{Result, ok, ◌>>=◌}
use librsswitch.Base.Text.{text, ◌==◌, contains}
use librsswitch.Json.{Value, int, str, obj, Fields, end, field, get}
use librsswitch.Jsonutil.{strict_loads, as_result}
use librsswitch.Model.Types.{Document}
use librsswitch.Model.Check.{first_unknown}
use librsswitch.Model.Valid.{IsValid}
use librsswitch.Errors.{Abort}
use librsswitch.Store.File.{Disk, missing, snapshot, text_of_file}
use librsswitch.Store.File.Write.{load-text_of_file}
use librsswitch.Validation.{is_control, is_surrogate}
use librsswitch.Config.{
  Platform, differs, accepted, is_int, or_refused, check_port, is_timeout, check_timeout,
  check_threads, check_gap, has_char, is_empty, check_host_text, check_host, check_listen_address,
  check_data_file, has_refused_char, check_username,
}
use librsswitch.Config.Hash.{check_hash}
use librsswitch.Config.Resolve.{
  key_name, default_of, Settings, laid_over, raise_reason, is_null, with_login, check_of,
  check_keys, resolve_with, resolve_known, resolve_fields, resolve_config, daemon_host, daemon_port,
  listen_port, threads, all_off_gap_ms, data_file, load_config, load_said,
}
use librsswitch.Config.Laws.{IsUsable, IsIpv4, IsIn, IsUsable-ranges, resolve_config-IsUsable}
use librsswitch.Config.Again.{dict_of, resolve_config_again}
use librsswitch.App.{StartError, checked_store, with_config, create_app}
use librsswitch.App.Start.{create_app-IsUsable}
use librsswitch.CommandLine.{
  stopped, Machine, hashed, status, run, hash_password, after_listen, served, run_prepared,
  after_app, with_mapping, make_app, prepare, main, saying,
}
use librsswitch.CommandLine.Said.{SaysNamed, main-SaysNamed}
use librsswitch.CommandLine.Status.{
  PrintsNothing, PrintsHash, Started, hash_password-cases, main-Started,
}
use librsswitch.Tests.Data.{ascii, home, home-IsValid, one_document}
use librsswitch.Tests.Documents.{full_disk}

-- A text with a dot is an IPv4 address.
abbrev plain : Platform
plain = record {
  unicode = ascii;
  ip_version = λ t. if has_char b'.' t then some 4 else none;
  lower = λ c. c ∷ [];
  is_abs = λ t. has_char b'/' t;
  close_match = λ t. none;
  is_guaranteed = λ t. true;
  takes_pbkdf2 = λ t. true;
  check_password_hash = λ hash password. differs;
  max_str_digits = 4300;
}

-- {"all_off_gap_ms": 250}
abbrev quick : Fields
quick = field (text "all_off_gap_ms") (int (pos 250)) end

admin_accepted : check_username plain (str (text "admin")) ≡ accepted
unfolding check_username has_char has_refused_char is_empty is_control is_surrogate text
admin_accepted = refl

quick_resolved : resolve_config plain (obj quick) ≡ ok (laid_over quick)
unfolding resolve_config resolve_fields resolve_known resolve_with check_keys check_of raise_reason
    with_login is_null laid_over key_name default_of first_unknown contains get ◌==◌ text check_port
    check_timeout is_timeout check_threads check_gap is_int or_refused check_host check_host_text
    check_listen_address check_data_file has_char check_username check_hash ◌>>=◌
quick_resolved = refl

quick-IsUsable : IsUsable plain (laid_over quick)
quick-IsUsable =
    resolve_config-IsUsable plain (obj quick) (laid_over quick) admin_accepted quick_resolved

resolve_config_again_example :
    resolve_config plain (dict_of (laid_over quick)) ≡ ok (laid_over quick)
resolve_config_again_example =
    resolve_config_again plain (obj quick) (laid_over quick) admin_accepted quick_resolved

IsUsable-ranges_example :
    IsIpv4 plain (laid_over quick daemon_host)
    × IsIn 1 65535 (laid_over quick daemon_port)
    × IsIn 0 65535 (laid_over quick listen_port)
    × IsIn 1 16 (laid_over quick threads)
    × IsIn 0 10000 (laid_over quick all_off_gap_ms)
IsUsable-ranges_example = IsUsable-ranges plain (laid_over quick) quick-IsUsable

disk_of : Value → Disk
disk_of path = full_disk

full_snapshot : snapshot one_document {E = Abort} full_disk ≡ ok home
unfolding snapshot strict_loads as_result text_of_file text
full_snapshot =
    load-text_of_file one_document home (b'{' ∷ b'}' ∷ b'\n' ∷ []) full_disk home-IsValid
      (λ p e. refl) refl refl

create_app_of :
    (v : Value) (cfg : Settings)
    → resolve_config plain v ≡ ok cfg
    → create_app one_document plain disk_of v ≡ ok cfg
unfolding create_app with_config checked_store disk_of
create_app_of v cfg e =
    ap (with_config one_document plain disk_of) e ∙ ap (checked_store cfg) full_snapshot

create_app-IsUsable_example :
    IsUsable plain (laid_over quick)
    × (d : Document) × (snapshot one_document {E = Abort} (disk_of (laid_over quick data_file))
        ≡ ok d)
    × IsValid d
create_app-IsUsable_example =
    create_app-IsUsable one_document plain disk_of (obj quick) (laid_over quick) admin_accepted
      (create_app_of (obj quick) (laid_over quick) quick_resolved)

-- No configuration file, a free address, and a password that is typed twice.
abbrev machine : Machine
machine = record {
  config_file = missing;
  is_explicit = false;
  store_message = [];
  listen = λ address port. none;
  is_loopback = λ address. true;
  has_waitress = true;
  server = stopped;
  server_address = (b'1' ∷ [], 8080);
  typed = some (b'p' ∷ [], b'p' ∷ []);
  method = none;
  generate = λ method password. hashed password;
}

defaults_resolved : resolve_config plain (obj end) ≡ ok (laid_over end)
unfolding resolve_config resolve_fields resolve_known resolve_with check_keys check_of raise_reason
    with_login is_null laid_over key_name default_of first_unknown contains get ◌==◌ text check_port
    check_timeout is_timeout check_threads check_gap is_int or_refused check_host check_host_text
    check_listen_address check_data_file has_char check_username check_hash ◌>>=◌
defaults_resolved = refl

run_stops : (main one_document plain disk_of machine run).exit ≡ status 0
unfolding main run_prepared prepare make_app with_mapping load_config after_app after_listen served
    saying
run_stops =
    ap
      (λ (o : Result StartError Settings).
        let end_of =
          run_prepared machine
            (saying (load_said false missing) (after_app one_document plain disk_of machine o)) in
        end_of.exit)
      (create_app_of (obj end) (laid_over end) defaults_resolved)

main-Started_example : (cfg : Settings) × Started one_document plain disk_of machine cfg
main-Started_example =
    main-Started one_document plain disk_of machine run (λ h. ground arith) run_stops

hash_password-cases_example :
    PrintsNothing (main one_document plain disk_of machine hash_password)
    ⊎ PrintsHash plain machine (main one_document plain disk_of machine hash_password)
hash_password-cases_example = hash_password-cases one_document plain disk_of machine

main-SaysNamed_example : SaysNamed (main one_document plain disk_of machine hash_password)
main-SaysNamed_example = main-SaysNamed one_document plain disk_of machine hash_password
