-- ===== src/CommandLine.antt =====
-- The command line of examples/web/rsswitch_web/__main__.py. The parser of the arguments, the
-- terminal, the sockets and the two servers are parameters.
pub mod Said
pub mod Status
use librsswitch.Base.{
  ℕ, Bool, true, false, not, ◌&&◌, List, [], ◌∷◌, ◌++◌, Option, none, some, if◌then◌else◌,
}
use librsswitch.Base.Int.{pos}
use librsswitch.Base.Result.{Result, ok, err}
use librsswitch.Base.Text.{Text, text, ◌==◌, decimal}
use librsswitch.Jsonutil.{Stdlib}
use librsswitch.Json.{Value, int, str, obj, Fields, end, field}
use librsswitch.Store.File.{File, Disk}
use librsswitch.App.{StartError, bad_config, bad_store, no_start, start_error, create_app}
use librsswitch.Config.{Platform}
use librsswitch.Config.Resolve.{
  Settings, Configured, Trouble, config_error, other_error, listen_address, listen_port,
  password_hash, is_null, load_said, load_config, resolve_config,
}

-- What `generate_password_hash` ends in. A ValueError carries its message.
pub data Generated : Type 0 where
  hashed : Text → Generated
  not_text : Generated
  bad_method : Text → Generated

-- What becomes of the server: it ends by SIGTERM or SIGINT once it listens, it cannot be made, or
-- another exception ends it.
pub data Server : Type 0 where
  stopped not_made broken : Server

-- The surroundings of one run of the program.
pub record Machine : Type 0 where
  -- the configuration file, and whether --config named it
  pub config_file : File
  pub is_explicit : Bool
  -- the message of a StoreError
  pub store_message : Text
  -- the strerror of an OSError of `_listen`
  pub listen : Value → Value → Option Text
  pub is_loopback : Value → Bool
  pub has_waitress : Bool
  pub server : Server
  -- the address and the port that the server has
  pub server_address : Text × ℕ
  -- the password, typed twice, with none for the end of the input
  pub typed : Option (Text × Text)
  -- `--method`, with none where it is missing or empty
  pub method : Option Text
  pub generate : Option Text → Text → Generated

-- How the program ends: with a status, or with an exception.
pub data Exit : Type 0 where
  status : ℕ → Exit
  traceback : Exit

-- The messages that `_say` and load_config write to stderr in their order, each without the newline at
-- its end, and the lines on stdout. What others write to stderr is not here: tracebacks, the usage of
-- argparse, the prompts of getpass and the logs of the servers.
pub record Ended : Type 0 where
  pub exit : Exit
  pub said : List Text
  pub printed : List Text

pub data Command : Type 0 where
  serve run hash_password : Command

abbrev pub quits : ℕ → Text → Ended
quits n line = record { exit = status n; said = line ∷ []; printed = [] }

abbrev pub crashes : List Text → Ended
crashes said = record { exit = traceback; said = said; printed = [] }

-- `"%s"` of an address or a port.
unfoldable pub shown : Value → Text
shown (str t) = t
shown (int (pos n)) = decimal n
shown _ = []

abbrev pub say : Text → Text
say line = text "rsswitch-web: " ++ line

-- What `_prepare` ends in: the end of the program, or the configuration and what was said before.
abbrev pub Prepared : Type 0
Prepared = Result Ended (Settings × List Text)

-- The same, after some lines on stderr.
unfoldable pub saying : List Text → Prepared → Prepared
saying before (err e) = err (record e { said = before ++ e.said })
saying before (ok (cfg, said)) = ok (cfg, before ++ said)

-- The end of a start that has failed.
unfoldable pub failed_start : Text → StartError → Ended
failed_start message (bad_config why) = quits 2 (say why)
failed_start message bad_store = quits 1 (say message)
failed_start message no_start = crashes []

unfoldable pub cannot_listen : Settings → Text → Ended
unfolding shown
cannot_listen cfg why = quits 1 (
    say (
      text "cannot listen on "
      ++ shown (cfg listen_address)
      ++ text ":"
      ++ shown (cfg listen_port)
      ++ text ": "
      ++ why))

-- The warning of an app without a login.
unfoldable pub warning : Settings → Bool → List Text
unfolding shown
warning cfg loopback =
    if is_null (cfg password_hash) && not loopback
    then say (
        text "warning: no password_hash is set and the app listens on "
        ++ shown (cfg listen_address)
        ++ text ", so anybody who can reach it can switch sockets")
      ∷ []
    else []

unfoldable pub after_listen : Settings → Bool → Option Text → Prepared
unfolding warning cannot_listen
after_listen cfg loopback (some why) = err (cannot_listen cfg why)
after_listen cfg loopback none = ok (cfg, warning cfg loopback)

unfoldable pub listening_on : Text × ℕ → Text
listening_on (host, port) = say (text "listening on " ++ host ++ text ":" ++ decimal port)

-- A server, after the lines that were said before it was made, with those that follow.
unfoldable pub served : List Text → List Text → Server → Ended
served before lines stopped = record { exit = status 0; said = before ++ lines; printed = [] }
served before lines not_made = crashes before
served before lines broken = crashes (before ++ lines)

module _ (machine : Machine) where
  unfoldable pub run_prepared : Prepared → Ended
  unfolding served listening_on
  run_prepared (err e) = e
  run_prepared (ok (cfg, said)) =
      let lines =
        say (text "development server only, not for production use")
        ∷ listening_on machine.server_address
        ∷ [] in
      served said lines machine.server

  unfoldable pub serve_prepared : Prepared → Ended
  unfolding served listening_on
  serve_prepared (err e) = e
  serve_prepared (ok (cfg, said)) =
      served said (listening_on machine.server_address ∷ []) machine.server

-- The end of `_hash_password`, by what `resolve_config` says of the hash.
unfoldable pub after_check : Text → Configured Settings → Ended
after_check hash (ok cfg) = record { exit = status 0; said = []; printed = hash ∷ [] }
after_check hash (err (config_error why)) = quits 2 (say why)
after_check hash (err other_error) = crashes []

unfoldable pub after_hash : Platform → Generated → Ended
unfolding after_check
after_hash os not_text = quits 1 (say (text "password is not valid text"))
after_hash os (bad_method why) = quits 2 (say (text "invalid --method: " ++ why))
after_hash os (hashed hash) =
    after_check hash (resolve_config os (obj (field (text "password_hash") (str hash) end)))

module _ (os : Platform) (machine : Machine) where
  -- By whether the two passwords are the same.
  unfoldable pub after_typing : Bool → Text → Ended
  unfolding after_hash
  after_typing false first = quits 1 (say (text "passwords do not match"))
  after_typing true [] = quits 1 (say (text "refusing an empty password"))
  after_typing true (c ∷ first) = after_hash os (machine.generate machine.method (c ∷ first))

  unfoldable pub hash_typed : Option (Text × Text) → Ended
  unfolding after_typing
  hash_typed none = quits 1 (say (text "no password given"))
  hash_typed (some (first, second)) = after_typing (first == second) first

module _ (lib : Stdlib) (os : Platform) (disk_of : Value → Disk) (machine : Machine) where
  unfoldable pub after_app : Result StartError Settings → Prepared
  unfolding after_listen failed_start
  after_app (err e) = err (failed_start machine.store_message e)
  after_app (ok cfg) =
      after_listen cfg (machine.is_loopback (cfg listen_address))
        (machine.listen (cfg listen_address) (cfg listen_port))

  unfoldable pub with_mapping : Configured Fields → Result StartError Settings
  unfolding start_error create_app
  with_mapping (err t) = err (start_error t)
  with_mapping (ok fields) = create_app lib os disk_of (obj fields)

  -- `create_app(load_config(args.config))`
  unfoldable pub make_app : Result StartError Settings
  unfolding with_mapping
  make_app = with_mapping (load_config lib machine.is_explicit machine.config_file)

  -- `_prepare`
  unfoldable pub prepare : Prepared
  unfolding after_app make_app saying load_said
  prepare = saying (load_said machine.is_explicit machine.config_file) (after_app make_app)

  unfoldable pub serve_if : Bool → Ended
  unfolding serve_prepared prepare
  serve_if false =
      quits 1 (say (text "serve needs waitress; install requirements.txt into the venv"))
  serve_if true = serve_prepared machine prepare

  -- `main`, of the command that the parser has found.
  unfoldable pub main : Command → Ended
  unfolding serve_if run_prepared prepare hash_typed
  main serve = serve_if machine.has_waitress
  main run = run_prepared machine prepare
  main hash_password = hash_typed os machine machine.typed
