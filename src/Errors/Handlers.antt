-- ===== src/Errors/Handlers.antt =====
-- The answers to errors: error_response and the handlers of examples/web/rsswitch_web/errors.py.
use librsswitch.Base.{
  ℕ, Bool, ◌||◌, List, [], ◌∷◌, ◌++◌, Option, none, some, ◌==◌ as nat_eq, if◌then◌else◌,
}
use librsswitch.Base.Text.{Text, text, ◌==◌, lt_text}
use librsswitch.Json.{Value, str, obj, Fields, end, field}
use librsswitch.Http.{HttpError}
use librsswitch.Errors.{ApiError, Abort, api_error, http_error, key_error, no_token}
use librsswitch.Store.File.{Failure, store_error, os_error, raised}
use librsswitch.Daemon.{DaemonError, daemon_error_info, status}

-- What is sent: a body that is JSON, or none.
pub record Response : Type 0 where
  pub status : ℕ
  pub body : Option Value
  pub headers : List (Text × Text)

-- The exceptions that leave a handler.
pub data Raised : Type 0 where
  api : ApiError → Raised
  store_failed : Raised
  daemon_failed : DaemonError → Raised
  http_failed : HttpError → Raised
  unexpected : Raised

-- The exception that a function under `Store.mutate` or the store itself has raised.
unfoldable pub raised_by : Failure Abort → Raised
raised_by store_error = store_failed
raised_by os_error = unexpected
raised_by (raised (api_error e)) = api e
raised_by (raised (http_error e)) = http_failed e
raised_by (raised key_error) = unexpected
raised_by (raised no_token) = unexpected

-- `jsonify(value), status`
abbrev pub json_response : ℕ → Value → Response
json_response status value = record { status = status; body = some value; headers = [] }

-- `error_response`. `extra` are the further keys of the error object.
unfoldable pub error_response : ℕ → Text → Text → List (Text × Text) → Fields → Response
error_response status code message headers extra = record {
  status = status;
  body = some (
      obj (
        field (text "error")
          (obj (field (text "code") (str code) (field (text "message") (str message) extra))) end));
  headers = headers;
}

unfoldable pub extra_field : Option Text → Fields
extra_field none = end
extra_field (some name) = field (text "field") (str name) end

unfoldable pub handle_api_error : ApiError → Response
unfolding error_response extra_field
handle_api_error e = error_response e.status e.code e.message e.headers (extra_field e.field)

unfoldable pub handle_store_error : Response
unfolding error_response
handle_store_error =
    error_response 500 (text "store_error") (text "the data store is unavailable") [] end

unfoldable pub handle_unexpected : Response
unfolding error_response
handle_unexpected = error_response 500 (text "internal_error") (text "internal server error") [] end

-- The keys of a DaemonReplyError.
unfoldable pub extra_said : Option (Text × Text) → Fields
extra_said none = end
extra_said (some (word, message)) =
    field (text "daemon_class") (str word) (field (text "daemon_message") (str message) end)

unfoldable pub handle_daemon_error : DaemonError → Response
unfolding error_response extra_said
handle_daemon_error e =
    let info = daemon_error_info e in
    error_response (status e) info.code info.message [] (extra_said info.said)

-- HTTP_CODES, http_error for a status that is not there
unfoldable pub http_code : ℕ → Text
http_code n =
    if nat_eq n 401
    then text "unauthorized"
    else if nat_eq n 404
    then text "not_found"
    else if nat_eq n 405
    then text "method_not_allowed"
    else if nat_eq n 413
    then text "payload_too_large"
    else if nat_eq n 415
    then text "unsupported_media_type"
    else text "http_error"

-- `sorted`, of texts
unfoldable pub insert_text : Text → List Text → List Text
insert_text t [] = t ∷ []
insert_text t (u ∷ us) = if lt_text u t then u ∷ insert_text t us else t ∷ (u ∷ us)

unfoldable pub sort_texts : List Text → List Text
unfolding insert_text
sort_texts [] = []
sort_texts (t ∷ ts) = insert_text t (sort_texts ts)

-- ", ".join(...)
unfoldable pub join_texts : List Text → Text
join_texts [] = []
join_texts (t ∷ []) = t
join_texts (t ∷ u ∷ us) = t ++ text ", " ++ join_texts (u ∷ us)

unfoldable pub or_else : Text → Text → Text
or_else [] other = other
or_else (c ∷ s) other = c ∷ s

-- `headers[name] = value`: in place, or at the end.
unfoldable pub set_header : Text → Text → List (Text × Text) → List (Text × Text)
set_header name value [] = (name, value) ∷ []
set_header name value ((n, v) ∷ hs) =
    if n == name then (n, value) ∷ hs else (n, v) ∷ set_header name value hs

-- The Allow header, where there are methods.
unfoldable pub with_allow : List Text → List (Text × Text) → List (Text × Text)
unfolding sort_texts join_texts set_header
with_allow [] headers = headers
with_allow (m ∷ ms) headers = set_header (text "Allow") (join_texts (sort_texts (m ∷ ms))) headers

-- `lower` is `str.lower`.
module _ (lower : Text → Text) where
  unfoldable pub is_own_header : Text → Bool
  is_own_header name = lower name == text "content-type" || lower name == text "content-length"

  -- The dict comprehension over the headers: a later value of a name takes the place of an earlier one.
  unfoldable pub other_headers : List (Text × Text) → List (Text × Text) → List (Text × Text)
  unfolding is_own_header set_header
  other_headers [] out = out
  other_headers ((name, value) ∷ hs) out =
      let kept = other_headers hs (set_header name value out) in
      let dropped = other_headers hs out in if is_own_header name then dropped else kept

  unfoldable pub handle_http_exception : HttpError → Response
  unfolding handle_unexpected error_response other_headers with_allow http_code or_else
  handle_http_exception e =
      if nat_eq e.code 0 || nat_eq e.code 500
      then handle_unexpected
      else error_response e.code (http_code e.code) (or_else e.description e.name)
          (with_allow e.valid_methods (other_headers e.headers [])) end

  -- The handlers that `register_error_handlers` registers.
  unfoldable pub handle : Raised → Response
  unfolding handle_api_error handle_store_error handle_daemon_error handle_http_exception
      handle_unexpected
  handle (api e) = handle_api_error e
  handle store_failed = handle_store_error
  handle (daemon_failed e) = handle_daemon_error e
  handle (http_failed e) = handle_http_exception e
  handle unexpected = handle_unexpected
