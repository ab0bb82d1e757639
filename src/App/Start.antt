-- ===== src/App/Start.antt =====
-- What a start promises.
use librsswitch.Base.{◌≡◌, ap, arith, refl}
use librsswitch.Base.Result.{Result, ok, err}
use librsswitch.Base.Text.{text}
use librsswitch.Jsonutil.{Stdlib}
use librsswitch.Json.{Value, str}
use librsswitch.Model.Types.{Document}
use librsswitch.Model.Valid.{IsValid}
use librsswitch.Errors.{Abort}
use librsswitch.Store.File.{Disk, Failure, snapshot}
use librsswitch.Store.File.Write.{snapshot-IsValid}
use librsswitch.Config.{Platform, accepted, check_username}
use librsswitch.Config.Resolve.{Settings, Configured, data_file, resolve_config}
use librsswitch.Config.Laws.{IsUsable, resolve_config-IsUsable}
use librsswitch.App.{checked_store, with_config, create_app}

module _ (lib : Stdlib) (os : Platform) (disk_of : Value → Disk) where
  checked_store-ok :
      (cfg cfg' : Settings) (o : Result (Failure Abort) Document)
      → checked_store cfg o ≡ ok cfg'
      → (cfg ≡ cfg') × (d : Document) × (o ≡ ok d)
  unfolding checked_store
  checked_store-ok cfg cfg' (ok d) h = (ground arith, d, refl)
  checked_store-ok cfg cfg' (err e) h = ground arith

  with_config-ok :
      (o : Configured Settings) (cfg : Settings)
      → with_config lib os disk_of o ≡ ok cfg
      → (o ≡ ok cfg) × (d : Document) × (snapshot lib {E = Abort} (disk_of (cfg data_file)) ≡ ok d)
  unfolding with_config
  with_config-ok (err t) cfg h = ground arith
  with_config-ok (ok c) cfg h =
      let (same, d, e) = checked_store-ok c cfg _ h in (ap ok same, d, ground arith)

  -- An app that exists has a configuration whose every value has passed its check, and a data file
  -- that holds a document with the invariant: none would serve or overwrite a corrupt file. The check
  -- of a user name has to accept `admin`.
  pub create_app-IsUsable :
      (config : Value) (cfg : Settings)
      → check_username os (str (text "admin")) ≡ accepted
      → create_app lib os disk_of config ≡ ok cfg
      → IsUsable os cfg
        × (d : Document) × (snapshot lib {E = Abort} (disk_of (cfg data_file)) ≡ ok d)
        × IsValid d
  unfolding create_app
  create_app-IsUsable config cfg admin h =
      let (resolved, d, read) = with_config-ok (resolve_config os config) cfg h in
      (
        resolve_config-IsUsable os config cfg admin resolved,
        d,
        read,
        snapshot-IsValid lib {E = Abort} (disk_of (cfg data_file)) d read,
      )
