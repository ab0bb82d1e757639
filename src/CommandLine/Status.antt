-- ===== src/CommandLine/Status.antt =====
-- What the exit status says.
use librsswitch.Base.{
  ◌≡◌, ◌≢◌, ◌⊎◌, inl, inr, refl, Bool, true, false, List, [], ◌∷◌, Option, none, some, arith,
}
use librsswitch.Base.Result.{Result, ok, err}
use librsswitch.Base.Text.{Text, text, ◌==◌, eq_iff}
use librsswitch.Jsonutil.{Bytes, bytes, Stdlib, ValueError, strict_loads}
use librsswitch.Json.{Value, obj, str, field, end, Fields}
use librsswitch.Store.File.{File, missing, unreadable, contents, Disk}
use librsswitch.App.{StartError, bad_config, bad_store, no_start, create_app}
use librsswitch.Config.{Platform}
use librsswitch.Config.Resolve.{
  Settings, Configured, config_error, other_error, load_said, load_config, as_mapping,
  listen_address, listen_port, resolve_config,
}
use librsswitch.CommandLine.{
  Generated, hashed, not_text, bad_method, Machine, status, Ended, Command, serve, run,
  hash_password, Prepared, failed_start, cannot_listen, after_listen, run_prepared, serve_prepared,
  after_app, with_mapping, make_app, prepare, after_check, after_hash, after_typing, hash_typed,
  serve_if, main, saying,
}

-- The dict that `_hash_password` resolves.
abbrev pub only_hash : Text → Value
only_hash hash = obj (field (text "password_hash") (str hash) end)

-- Nothing is printed, and the status is not 0.
abbrev pub PrintsNothing : Ended → Type 0
PrintsNothing e = (e.printed ≡ []) × (e.exit ≢ status 0)

after_check-cases :
    (hash : Text) (o : Configured Settings)
    → PrintsNothing (after_check hash o)
      ⊎ ((cfg : Settings) × (o ≡ ok cfg)
          × ((after_check hash o).printed ≡ hash ∷ [])
          × ((after_check hash o).exit ≡ status 0))
unfolding after_check
after_check-cases hash (ok cfg) = inr (cfg, refl, refl, refl)
after_check-cases hash (err (config_error why)) = inl (refl, λ h. ground arith)
after_check-cases hash (err other_error) = inl (refl, λ h. cc)

-- The hash of a password that was typed twice and that the app accepts.
abbrev pub PrintsHash : Platform → Machine → Ended → Type 0
PrintsHash os machine e =
    (password hash : Text) × (cfg : Settings) × (machine.typed ≡ some (password, password))
    × (password ≢ [])
    × (machine.generate machine.method password ≡ hashed hash)
    × (resolve_config os (only_hash hash) ≡ ok cfg)
    × (e.printed ≡ hash ∷ [])
    × (e.exit ≡ status 0)

module _ (os : Platform) (machine : Machine) where
  after_hash-cases :
      (password : Text) (g : Generated)
      → machine.typed ≡ some (password, password)
      → password ≢ []
      → machine.generate machine.method password ≡ g
      → PrintsNothing (after_hash os g) ⊎ PrintsHash os machine (after_hash os g)
  unfolding after_hash
  after_hash-cases password not_text typed filled made = inl (refl, λ h. ground arith)
  after_hash-cases password (bad_method why) typed filled made = inl (refl, λ h. ground arith)
  after_hash-cases password (hashed hash) typed filled made =
      elim (after_check-cases hash (resolve_config os (only_hash hash))) [
        | inl nothing ↦ inl nothing
        | inr (cfg, resolved, printed, done) ↦
            inr (password, hash, cfg, typed, filled, made, resolved, printed, done)
      ]

  after_typing-cases :
      (first second : Text) (same : Bool)
      → machine.typed ≡ some (first, second)
      → (first == second) ≡ same
      → PrintsNothing (after_typing os machine same first)
        ⊎ PrintsHash os machine (after_typing os machine same first)
  unfolding after_typing
  after_typing-cases first second false typed e = inl (refl, λ h. ground arith)
  after_typing-cases [] second true typed e = inl (refl, λ h. ground arith)
  after_typing-cases (c ∷ first) second true typed e =
      let twice : machine.typed ≡ some (c ∷ first, c ∷ first) =
        ground (arith, eq_iff (c ∷ first) second) in
      after_hash-cases (c ∷ first) _ twice (λ h. cc) refl

  hash_typed-cases :
      (o : Option (Text × Text))
      → machine.typed ≡ o
      → PrintsNothing (hash_typed os machine o) ⊎ PrintsHash os machine (hash_typed os machine o)
  unfolding hash_typed
  hash_typed-cases none typed = inl (refl, λ h. ground arith)
  hash_typed-cases (some (first, second)) typed = after_typing-cases first second _ typed refl

module _ (lib : Stdlib) (os : Platform) (disk_of : Value → Disk) (machine : Machine) where
  -- The command hash-password ends with status 0 exactly when it prints a hash: of a password that was
  -- typed twice and is not empty, and one that a configuration may hold. Otherwise it prints nothing.
  pub hash_password-cases :
      PrintsNothing (main lib os disk_of machine hash_password)
      ⊎ PrintsHash os machine (main lib os disk_of machine hash_password)
  unfolding main
  hash_password-cases = hash_typed-cases os machine machine.typed refl

  -- The dict that the app was made from: that of a file with a JSON object, or an empty one where there
  -- is no file at the default path.
  abbrev pub ReadsConfig : Bool → File → Fields → Type 0
  ReadsConfig explicit file fields =
      ((file ≡ missing) × (explicit ≡ false) × (fields ≡ end))
      ⊎ ((raw : Bytes) × (file ≡ contents raw) × (strict_loads lib (bytes raw) ≡ ok (obj fields)))

  as_mapping-ok :
      (o : Result ValueError Value) (fields : Fields)
      → as_mapping o ≡ ok fields
      → o ≡ ok (obj fields)
  unfolding as_mapping
  as_mapping-ok o fields h = ground arith

  load_config-ReadsConfig :
      (explicit : Bool) (file : File) (fields : Fields)
      → load_config lib explicit file ≡ ok fields
      → ReadsConfig explicit file fields
  unfolding load_config
  load_config-ReadsConfig true missing fields h = cc
  load_config-ReadsConfig false missing fields h = inl (refl, refl, ground arith)
  load_config-ReadsConfig explicit unreadable fields h = cc
  load_config-ReadsConfig explicit (contents raw) fields h =
      inr (raw, refl, as_mapping-ok _ fields h)

  -- A start that has succeeded.
  abbrev pub Started : Settings → Type 0
  Started cfg =
      (fields : Fields) × ReadsConfig machine.is_explicit machine.config_file fields
      × (create_app lib os disk_of (obj fields) ≡ ok cfg)
      × (machine.listen (cfg listen_address) (cfg listen_port) ≡ none)

  with_mapping-ok :
      (o : Configured Fields) (cfg : Settings)
      → with_mapping lib os disk_of machine o ≡ ok cfg
      → (fields : Fields) × (o ≡ ok fields) × (create_app lib os disk_of (obj fields) ≡ ok cfg)
  unfolding with_mapping
  with_mapping-ok (err t) cfg h = ground arith
  with_mapping-ok (ok fields) cfg h = (fields, refl, h)

  -- A prepared server has started; one that is not ends with another status than 0.
  abbrev PreparedWell : Prepared → Type 0
  PreparedWell (err e) = e.exit ≢ status 0
  PreparedWell (ok (cfg, said)) = Started cfg

  failed_start-status : (message : Text) (e : StartError) → (failed_start message e).exit ≢ status 0
  unfolding failed_start
  failed_start-status message (bad_config why) h = ground arith
  failed_start-status message bad_store h = ground arith
  failed_start-status message no_start h = cc

  after_listen-PreparedWell :
      (cfg : Settings) (loopback : Bool) (o : Option Text)
      → make_app lib os disk_of machine ≡ ok cfg
      → machine.listen (cfg listen_address) (cfg listen_port) ≡ o
      → PreparedWell (after_listen cfg loopback o)
  unfolding after_listen cannot_listen make_app
  after_listen-PreparedWell cfg loopback (some why) made e = λ h. ground arith
  after_listen-PreparedWell cfg loopback none made e =
      let (fields, read, created) = with_mapping-ok _ cfg made in
      (fields, load_config-ReadsConfig _ _ fields read, created, e)

  after_app-PreparedWell :
      (o : Result StartError Settings)
      → make_app lib os disk_of machine ≡ o
      → PreparedWell (after_app lib os disk_of machine o)
  unfolding after_app
  after_app-PreparedWell (err e) made = failed_start-status machine.store_message e
  after_app-PreparedWell (ok cfg) made = after_listen-PreparedWell cfg _ _ made refl

  saying-PreparedWell :
      (before : List Text) (p : Prepared) → PreparedWell p → PreparedWell (saying before p)
  unfolding saying
  saying-PreparedWell before (err e) h = h
  saying-PreparedWell before (ok (cfg, said)) h = h

  prepare-PreparedWell : PreparedWell (prepare lib os disk_of machine)
  unfolding prepare
  prepare-PreparedWell =
      saying-PreparedWell (load_said machine.is_explicit machine.config_file) _
        (after_app-PreparedWell _ refl)

  run_prepared-status :
      (p : Prepared)
      → PreparedWell p
      → (run_prepared machine p).exit ≡ status 0
      → (cfg : Settings) × Started cfg
  unfolding run_prepared
  run_prepared-status (err e) h s = absurd (h s)
  run_prepared-status (ok (cfg, said)) h s = (cfg, h)

  serve_prepared-status :
      (p : Prepared)
      → PreparedWell p
      → (serve_prepared machine p).exit ≡ status 0
      → (cfg : Settings) × Started cfg
  unfolding serve_prepared
  serve_prepared-status (err e) h s = absurd (h s)
  serve_prepared-status (ok (cfg, said)) h s = (cfg, h)

  serve_if-status :
      (b : Bool)
      → (serve_if lib os disk_of machine b).exit ≡ status 0
      → (cfg : Settings) × Started cfg
  unfolding serve_if
  serve_if-status false s = ground arith
  serve_if-status true s = serve_prepared-status _ prepare-PreparedWell s

  -- A server, of the command serve or run, that ends with status 0 had a configuration file that holds
  -- a JSON object, or none at the default path, an app that could be made from it, and an address that
  -- it could listen on.
  pub main-Started :
      (c : Command)
      → c ≢ hash_password
      → (main lib os disk_of machine c).exit ≡ status 0
      → (cfg : Settings) × Started cfg
  unfolding main
  main-Started serve other s = serve_if-status machine.has_waitress s
  main-Started run other s = run_prepared-status _ prepare-PreparedWell s
  main-Started hash_password other s = absurd (other refl)
