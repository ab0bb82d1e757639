-- ===== src/App.antt =====
-- The application of examples/web/rsswitch_web/app.py: the start, the order in which a request meets
-- the login, the content type gate and its route, and what is added to every response. The header
-- store of Werkzeug is a parameter.
pub mod Headers
pub mod Order
pub mod Start
use librsswitch.Base.{
  ℕ, zero, Bool, true, false, List, [], ◌∷◌, ◌++◌, Option, none, some, ltb, leb, ◌&&◌, ◌+◌,
  if◌then◌else◌, ◌==◌ as nat_eq,
}
use librsswitch.Base.Result.{Result, ok, err}
use librsswitch.Base.Text.{Text, text, ◌==◌, decimal}
use librsswitch.Jsonutil.{Stdlib}
use librsswitch.Json.{Value}
use librsswitch.Model.Types.{Document}
use librsswitch.Errors.{
  ApiError, Abort, api_error, key_error, no_token, Handled, Request, content_type_gate,
}
use librsswitch.Errors.Handlers.{Response, Raised, api, unexpected, raised_by, handle}
use librsswitch.Store.File.{Disk, Failure, raised, snapshot}
use librsswitch.Daemon.{without_prefix}
use librsswitch.Auth.Hook.{Answer, admitted, too_many, unauthorized, crashed}
use librsswitch.Config.{Platform}
use librsswitch.Config.Resolve.{
  Settings, Configured, Trouble, config_error, other_error, data_file, resolve_config,
}

abbrev pub Headers : Type 0
Headers = List (Text × Text)

-- SECURITY_HEADERS
abbrev pub security_headers : Headers
security_headers =
    (
      text "Content-Security-Policy",
      text "default-src 'self'; base-uri 'none'; form-action 'self'; "
          ++ text "frame-ancestors 'none'; object-src 'none'",
    )
    ∷ (text "X-Content-Type-Options", text "nosniff")
    ∷ (text "Referrer-Policy", text "no-referrer")
    ∷ (text "X-Frame-Options", text "DENY")
    ∷ []

-- `werkzeug.datastructures.Headers`: `get`, `setdefault` and assignment to a key.
pub record HeaderStore : Type 0 where
  pub find : Text → Headers → Option Text
  pub set_default : Text → Text → Headers → Headers
  pub set : Text → Text → Headers → Headers

-- `path.startswith("/api/")`
unfoldable pub is_api_path : Text → Bool
is_api_path path = elim (without_prefix (text "/api/") path) [ none ↦ false | some rest ↦ true ]

module _ (store : HeaderStore) where
  -- The loop of `set_security_headers`.
  unfoldable pub set_defaults : Headers → Headers → Headers
  set_defaults [] hs = hs
  set_defaults ((name, value) ∷ rest) hs = set_defaults rest (store.set_default name value hs)

  unfoldable pub no_store_if : Bool → Headers → Headers
  no_store_if true hs = store.set (text "Cache-Control") (text "no-store") hs
  no_store_if false hs = hs

  unfoldable pub set_security_headers : Text → Response → Response
  unfolding set_defaults no_store_if
  set_security_headers path r = record r {
    headers = no_store_if (is_api_path path) (set_defaults security_headers r.headers);
  }

-- What the hook of the login raises, by its answer.
unfoldable pub login_error : Answer → Result Raised (Unit {0})
login_error admitted = ok tt
login_error (too_many wait) = err (
    api (record {
      status = 429;
      code = text "too_many_attempts";
      message = text "too many failed logins, try again later";
      field = none;
      headers = (text "Retry-After", decimal wait) ∷ [];
    }))
login_error unauthorized = err (
    api (record {
      status = 401;
      code = text "unauthorized";
      message = text "authentication required";
      field = none;
      headers = (text "WWW-Authenticate", text "Basic realm=\"rsswitch\", charset=\"UTF-8\"") ∷ [];
    }))
login_error crashed = err unexpected

-- `None` of make_auth_hook is no hook.
unfoldable pub login_hook : Option Answer → Result Raised (Unit {0})
unfolding login_error
login_hook none = ok tt
login_hook (some answer) = login_error answer

unfoldable pub raised_if : Handled (Unit {0}) → Result Raised (Unit {0})
raised_if (ok u) = ok u
raised_if (err e) = err (raised_by (raised e))

-- The hooks, in the order in which they are registered: the first that raises ends the request
-- before its route.
unfoldable pub after_hooks :
    List (Result Raised (Unit {0}))
    → (Disk → Result Raised Response × Disk)
    → Disk
    → Result Raised Response × Disk
after_hooks [] route disk = route disk
after_hooks (ok u ∷ hooks) route disk = after_hooks hooks route disk
after_hooks (err e ∷ hooks) route disk = (err e, disk)

-- The error handlers, for what was raised.
unfoldable pub respond : (Text → Text) → Result Raised Response × Disk → Response × Disk
respond lower (ok r, disk) = (r, disk)
respond lower (err e, disk) = (handle lower e, disk)

module _ (store : HeaderStore) (lower : Text → Text) where
  -- One request of an app that `create_app` has made: the hooks in their order, the route, the error
  -- handlers, and the headers.
  unfoldable pub answer_request :
      Option Answer
      → Request
      → Text
      → (Disk → Result Raised Response × Disk)
      → Disk
      → Response × Disk
  unfolding login_hook raised_if after_hooks respond set_security_headers
  answer_request login request path route disk =
      let (r, after) =
        respond lower (
          after_hooks (login_hook login ∷ raised_if (content_type_gate request) ∷ []) route disk) in
      (set_security_headers store path r, after)

-- What `create_app` raises: the ConfigError, the StoreError, or another exception.
pub data StartError : Type 0 where
  bad_config : Text → StartError
  bad_store : StartError
  no_start : StartError

unfoldable pub start_error : Trouble → StartError
start_error (config_error why) = bad_config why
start_error other_error = no_start

unfoldable pub checked_store :
    Settings → Result (Failure Abort) Document → Result StartError Settings
checked_store cfg (ok d) = ok cfg
checked_store cfg (err e) = err bad_store

-- `disk_of` is the directory and the file that `data_file` names.
module _ (lib : Stdlib) (os : Platform) (disk_of : Value → Disk) where
  unfoldable pub with_config : Configured Settings → Result StartError Settings
  unfolding start_error checked_store
  with_config (err t) = err (start_error t)
  with_config (ok cfg) = checked_store cfg (snapshot lib (disk_of (cfg data_file)))

  -- `create_app`, up to the configuration that the app has.
  unfoldable pub create_app : Value → Result StartError Settings
  unfolding with_config
  create_app config = with_config (resolve_config os config)
