-- ===== src/Errors.antt =====
-- The error contract of the API and the checks of a request that come before a handler:
-- examples/web/rsswitch_web/errors.py.
pub mod Handlers
use librsswitch.Base.{
  ℕ, Bool, true, false, not, ◌&&◌, ◌||◌, List, [], ◌∷◌, Option, none, some, length, ltb, leb,
  ◌==◌ as nat_eq, if◌then◌else◌,
}
use librsswitch.Base.Result.{Result, ok, err, ◌>>◌, raise_if}
use librsswitch.Base.Text.{Text, text, ◌==◌}
use librsswitch.Http.{HttpError}
use librsswitch.Jsonutil.{Bytes, bytes, ValueError, Stdlib, strict_loads}
use librsswitch.Json.{Value, obj, Fields, end, keys_of}
use librsswitch.Model.Check.{first_unknown}

pub record ApiError : Type 0 where
  pub status : ℕ
  pub code : Text
  pub message : Text
  pub field : Option Text
  pub headers : List (Text × Text)

-- How a handler ends that returns no result. `http_error` is an exception of Werkzeug, `key_error` is the KeyError of a subscript, and
-- `no_token` stands for a random source that has given only ids that are taken.
pub data Abort : Type 0 where
  api_error : ApiError → Abort
  http_error : HttpError → Abort
  key_error : Abort
  no_token : Abort

abbrev pub Handled {ℓ} : Type ℓ → Type ℓ
Handled = Result Abort

unfoldable pub failure : ℕ → Text → Text → Abort
failure status code message =
    api_error
      (record { status = status; code = code; message = message; field = none; headers = [] })

unfoldable pub field_failure : ℕ → Text → Text → Text → Abort
field_failure status code message field =
    api_error
      (record { status = status; code = code; message = message; field = some field; headers = [] })

-- ApiError(422, "validation", message, field=field)
abbrev pub invalid : Text → Text → Abort
invalid message field = field_failure 422 (text "validation") message field

-- ApiError(404, "not_found", message)
abbrev pub not_found : Text → Abort
not_found message = failure 404 (text "not_found") message

-- `bytes.strip` strips these.
unfoldable pub is_blank_byte : ℕ → Bool
is_blank_byte c = nat_eq c 32 || (leb 9 c && leb c 13)

unfoldable pub is_blank : Bytes → Bool
is_blank [] = true
is_blank (c ∷ s) = is_blank_byte c && is_blank s

unfoldable pub as_object : Value → Handled Fields
as_object (obj fields) = ok fields
as_object _ = err (failure 400 (text "bad_json") (text "request body must be a JSON object"))

unfoldable pub parsed_object : Result ValueError Value → Handled Fields
unfolding as_object
parsed_object (ok v) = as_object v
parsed_object (err _) = err (failure 400 (text "bad_json") (text "request body is not valid JSON"))

-- MAX_BODY_BYTES, which create_app sets as MAX_CONTENT_LENGTH
abbrev pub max_body_bytes : ℕ
max_body_bytes = 16384

-- `request.get_data()`, of the bytes that the client sends
unfoldable pub get_data : Stdlib → Bytes → Handled (Unit {0})
get_data lib raw = raise_if (ltb max_body_bytes (length raw)) (http_error lib.too_large)

-- What `json_body` makes of the bytes that it gets.
unfoldable pub parse_body : Stdlib → Bool → Bytes → Handled Fields
unfolding parsed_object is_blank
parse_body lib required raw =
    if is_blank raw
    then (if required
        then err (failure 400 (text "bad_json") (text "request body is empty"))
        else ok end)
    else parsed_object (strict_loads lib (bytes raw))

-- `json_body`, of the bytes of a request
unfoldable pub json_body : Stdlib → Bool → Bytes → Handled Fields
unfolding parse_body get_data
json_body lib required raw = do get_data lib raw; parse_body lib required raw

unfoldable pub reject_unknown_fields : Fields → List Text → Handled (Unit {0})
reject_unknown_fields body allowed = elim (first_unknown (keys_of body) allowed) [
  | none ↦ ok tt
  | some key ↦ err (invalid (text "unknown field") key)
]

pub data Method : Type 0 where
  get head options post put patch delete : Method

-- What the gate reads of a request.
pub record Request : Type 0 where
  pub method : Method
  pub content_length : Option ℕ
  pub has_transfer_encoding : Bool
  pub mimetype : Text

unfoldable pub has_length : Option ℕ → Bool
has_length none = false
has_length (some n) = not (nat_eq n 0)

unfoldable pub is_gated : Request → Bool
unfolding has_length
is_gated r = elim r.method [
  | post ↦ true
  | put ↦ true
  | patch ↦ true
  | delete ↦ has_length r.content_length || r.has_transfer_encoding
  | _ ↦ false
]

unfoldable pub content_type_gate : Request → Handled (Unit {0})
unfolding is_gated
content_type_gate r =
    raise_if (is_gated r && not (r.mimetype == text "application/json"))
      (failure 415 (text "unsupported_media_type") (text "Content-Type must be application/json"))
