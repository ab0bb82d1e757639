-- ===== src/CommandLine/Said.antt =====
-- What the program says.
use librsswitch.Base.{
  Bool, true, false, Bool-cases, not, ◌&&◌, List, [], ◌∷◌, ◌++◌, Option, none, some, inl, inr, All,
  All-append, refl, ◌≡◌,
}
use librsswitch.Base.Result.{Result, ok, err}
use librsswitch.Base.Text.{Text, text, ◌==◌}
use librsswitch.Jsonutil.{Stdlib}
use librsswitch.Json.{Value, obj, str, field, end}
use librsswitch.Store.File.{File, missing, unreadable, contents, Disk}
use librsswitch.App.{StartError, bad_config, bad_store, no_start}
use librsswitch.Config.{Platform}
use librsswitch.Config.Resolve.{
  Settings, Configured, config_error, other_error, is_null, password_hash, listen_address,
  listen_port, resolve_config, load_said,
}
use librsswitch.CommandLine.{
  Generated, hashed, not_text, bad_method, Server, stopped, not_made, broken, Machine, Ended,
  Command, serve, run, hash_password, Prepared, failed_start, cannot_listen, warning, after_listen,
  listening_on, served, run_prepared, serve_prepared, after_app, make_app, prepare, after_check,
  after_hash, after_typing, hash_typed, serve_if, main, saying,
}

-- The line starts with the name of the program.
abbrev pub IsNamed : Text → Type 0
IsNamed line = (rest : Text) × (line ≡ text "rsswitch-web: " ++ rest)

abbrev pub SaysNamed : Ended → Type 0
SaysNamed e = All IsNamed e.said

failed_start-SaysNamed : (message : Text) (e : StartError) → SaysNamed (failed_start message e)
unfolding failed_start
failed_start-SaysNamed message (bad_config why) = ((_, refl), tt)
failed_start-SaysNamed message bad_store = ((_, refl), tt)
failed_start-SaysNamed message no_start = tt

warning-IsNamed : (cfg : Settings) (loopback : Bool) → All IsNamed (warning cfg loopback)
unfolding warning
warning-IsNamed cfg loopback = elim (Bool-cases (is_null (cfg password_hash) && not loopback)) [
  | inl e ↦ rw e ((_, refl), tt)
  | inr e ↦ rw e tt
]

-- A start that has failed says why, and one that has not may have warned.
abbrev pub PreparedNamed : Prepared → Type 0
PreparedNamed (err e) = SaysNamed e
PreparedNamed (ok (cfg, said)) = All IsNamed said

load_said-IsNamed : (explicit : Bool) (file : File) → All IsNamed (load_said explicit file)
unfolding load_said text
load_said-IsNamed false missing = ((_, refl), tt)
load_said-IsNamed false unreadable = tt
load_said-IsNamed false (contents raw) = tt
load_said-IsNamed true file = tt

saying-PreparedNamed :
    (before : List Text) (p : Prepared)
    → All IsNamed before
    → PreparedNamed p
    → PreparedNamed (saying before p)
unfolding saying
saying-PreparedNamed before (err e) hb h = All-append IsNamed before e.said hb h
saying-PreparedNamed before (ok (cfg, said)) hb h = All-append IsNamed before said hb h

after_listen-PreparedNamed :
    (cfg : Settings) (loopback : Bool) (o : Option Text)
    → PreparedNamed (after_listen cfg loopback o)
unfolding after_listen cannot_listen
after_listen-PreparedNamed cfg loopback (some why) = ((_, refl), tt)
after_listen-PreparedNamed cfg loopback none = warning-IsNamed cfg loopback

served-SaysNamed :
    (before lines : List Text) (server : Server)
    → All IsNamed before
    → All IsNamed lines
    → SaysNamed (served before lines server)
unfolding served
served-SaysNamed before lines stopped hb hl = All-append IsNamed before lines hb hl
served-SaysNamed before lines not_made hb hl = hb
served-SaysNamed before lines broken hb hl = All-append IsNamed before lines hb hl

module _ (machine : Machine) where
  run_prepared-SaysNamed : (p : Prepared) → PreparedNamed p → SaysNamed (run_prepared machine p)
  unfolding run_prepared listening_on
  run_prepared-SaysNamed (err e) h = h
  run_prepared-SaysNamed (ok (cfg, said)) h =
      served-SaysNamed said _ machine.server h ((_, refl), ((_, refl), tt))

  serve_prepared-SaysNamed : (p : Prepared) → PreparedNamed p → SaysNamed (serve_prepared machine p)
  unfolding serve_prepared listening_on
  serve_prepared-SaysNamed (err e) h = h
  serve_prepared-SaysNamed (ok (cfg, said)) h =
      served-SaysNamed said _ machine.server h ((_, refl), tt)

after_check-SaysNamed : (hash : Text) (o : Configured Settings) → SaysNamed (after_check hash o)
unfolding after_check
after_check-SaysNamed hash (ok cfg) = tt
after_check-SaysNamed hash (err (config_error why)) = ((_, refl), tt)
after_check-SaysNamed hash (err other_error) = tt

after_hash-SaysNamed : (os : Platform) (g : Generated) → SaysNamed (after_hash os g)
unfolding after_hash
after_hash-SaysNamed os not_text = ((_, refl), tt)
after_hash-SaysNamed os (bad_method why) = ((_, refl), tt)
after_hash-SaysNamed os (hashed hash) =
    after_check-SaysNamed hash
      (resolve_config os (obj (field (text "password_hash") (str hash) end)))

module _ (os : Platform) (machine : Machine) where
  after_typing-SaysNamed :
      (same : Bool) (first : Text) → SaysNamed (after_typing os machine same first)
  unfolding after_typing
  after_typing-SaysNamed false first = ((_, refl), tt)
  after_typing-SaysNamed true [] = ((_, refl), tt)
  after_typing-SaysNamed true (c ∷ first) =
      after_hash-SaysNamed os (machine.generate machine.method (c ∷ first))

  hash_typed-SaysNamed : (o : Option (Text × Text)) → SaysNamed (hash_typed os machine o)
  unfolding hash_typed
  hash_typed-SaysNamed none = ((_, refl), tt)
  hash_typed-SaysNamed (some (first, second)) = after_typing-SaysNamed (first == second) first

module _ (lib : Stdlib) (os : Platform) (disk_of : Value → Disk) (machine : Machine) where
  after_app-PreparedNamed :
      (o : Result StartError Settings) → PreparedNamed (after_app lib os disk_of machine o)
  unfolding after_app
  after_app-PreparedNamed (err e) = failed_start-SaysNamed machine.store_message e
  after_app-PreparedNamed (ok cfg) =
      after_listen-PreparedNamed cfg (machine.is_loopback (cfg listen_address))
        (machine.listen (cfg listen_address) (cfg listen_port))

  prepare-PreparedNamed : PreparedNamed (prepare lib os disk_of machine)
  unfolding prepare
  prepare-PreparedNamed =
      saying-PreparedNamed (load_said machine.is_explicit machine.config_file) _
        (load_said-IsNamed machine.is_explicit machine.config_file)
        (after_app-PreparedNamed (make_app lib os disk_of machine))

  serve_if-SaysNamed : (b : Bool) → SaysNamed (serve_if lib os disk_of machine b)
  unfolding serve_if
  serve_if-SaysNamed false = ((_, refl), tt)
  serve_if-SaysNamed true =
      serve_prepared-SaysNamed machine (prepare lib os disk_of machine) prepare-PreparedNamed

  -- Every message that `_say` and load_config write to stderr starts with the name of the program,
  -- whatever the command is and however it ends. Of a message of several lines it is the first line
  -- that has the name. What others write there is not meant: tracebacks, the usage of argparse, the
  -- prompts of getpass and the logs of the servers.
  pub main-SaysNamed : (c : Command) → SaysNamed (main lib os disk_of machine c)
  unfolding main
  main-SaysNamed serve = serve_if-SaysNamed machine.has_waitress
  main-SaysNamed run =
      run_prepared-SaysNamed machine (prepare lib os disk_of machine) prepare-PreparedNamed
  main-SaysNamed hash_password = hash_typed-SaysNamed os machine machine.typed
