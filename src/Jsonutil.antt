-- ===== src/Jsonutil.antt =====
-- The one JSON parser of the app: examples/web/rsswitch_web/jsonutil.py. `json.loads` and the
-- UTF-8 codec are parameters.
use librsswitch.Base.{ℕ, List, Option, none, some}
use librsswitch.Base.Result.{Result, ok, err}
use librsswitch.Base.Text.{Text}
use librsswitch.Http.{HttpError}
use librsswitch.Json.{Value}

abbrev pub Bytes : Type 0
Bytes = List ℕ

pub data Raw : Type 0 where
  bytes : Bytes → Raw
  str : Text → Raw

-- ValueError and its subclasses
pub data ValueError : Type 0 where
  value_error : ValueError

-- What a call of `json.loads` ends in.
pub data Loaded : Type 0 where
  loaded : Value → Loaded
  not_json : Loaded
  recursion_error : Loaded

-- What the data file and the request bodies need of Python's standard library and of Werkzeug.
-- `json_loads` takes `parse_constant`, the function that it calls for NaN and the infinities, and
-- `too_large` is the RequestEntityTooLarge that Werkzeug raises for a body over MAX_CONTENT_LENGTH.
pub record Stdlib : Type 0 where
  pub decode : Bytes → Option Text
  pub encode : Text → Option Bytes
  pub json_loads : (Text → Result ValueError Value) → Text → Loaded
  pub json_dumps : Value → Text
  pub too_large : HttpError

-- `_refuse_constant`
unfoldable pub refuse_constant : Text → Result ValueError Value
refuse_constant name = err value_error

unfoldable pub as_result : Loaded → Result ValueError Value
as_result (loaded v) = ok v
as_result not_json = err value_error
as_result recursion_error = err value_error

unfoldable pub strict_loads : Stdlib → Raw → Result ValueError Value
unfolding as_result
strict_loads lib (bytes raw) = elim (lib.decode raw) [
  | none ↦ err value_error
  | some t ↦ as_result (lib.json_loads refuse_constant t)
]
strict_loads lib (str t) = as_result (lib.json_loads refuse_constant t)
