-- ===== src/Lib.antt =====
-- The rsswitch-web application, examples/web/rsswitch_web of the repository: a Flask application
-- that keeps a household of rooms and radio sockets in one JSON file and switches the sockets through
-- the daemon rsswitchd.
--
-- The parts and the files that model them:
--
-- Base: shared names, Python's `str` (Base/Text, a list of code points), exceptions as values
--   (Base/Result), lists and tests over the native numbers.
-- Http: an exception of Werkzeug as a record.
-- Json and Jsonutil: JSON values, and strict_loads of jsonutil.py. `json.loads`, `json.dumps`, the
--   UTF-8 codec and Werkzeug's exception for a body that is too large are the record `Stdlib`.
-- Model: model.py. Model/Types has SOCKET_TYPES and the document as records, Model/Check is
--   check_document and its helpers on JSON values, Model/View reads a value as a document by the keys
--   that the code uses, Model/Encode writes the dict of a document, and Model/Valid states the
--   invariant of a document. Model/Sound and Model/Complete are about check_document.
-- Store: store.py. Store/Find has the lookups and assignment to what they return, Store/Record the
--   loop of record_last_sent (Store/Record/Spec describes it by each socket), Store/File the class
--   Store with snapshot, mutate and the atomic write. The answers of the system calls are the record
--   `Answers`, an argument of each call. Store/LastSent is record_last_sent as a whole.
-- Errors: ApiError, content_type_gate, json_body and reject_unknown_fields of errors.py.
--   Errors/Handlers has error_response and the handlers of register_error_handlers.
-- Validation: validation.py. The tables of `unicodedata` are the record `Unicode`.
-- Api: the functions that the routes of api/rooms.py and api/sockets.py give to Store.mutate, from
--   a document to a reply and a document, or to what is raised. Api/Common has what both share,
--   new_id of model.py among it, and Api/Json the JSON forms of store.py.
--   Api/Routes has these routes as a whole, from the bytes of a body to a response or an exception and
--   the disk after it, and Api/Switch the All-off routes of api/switch.py and api/meta.py.
-- Config: config.py. Config has the checks of the keys, Config/Hash that of the password hash, and
--   Config/Resolve load_config, with what it writes to stderr as load_said, and resolve_config. What
--   the code asks of ipaddress, os, difflib, hashlib and Werkzeug is the record `Platform`.
-- Auth: the class LoginLimiter of auth.py, with the reading of the clock as an argument. Auth/Hook is
--   the hook of make_auth_hook: each request is a thread with a phase, and `play` runs any sequence
--   of arrivals and turns over the entries, the cache and the verify lock that they share. A region
--   under the lock of the limiter or of the cache is one turn.
-- Daemon: the client of rsswitchd of daemon.py, with what the sockets answer as an argument
--   (Daemon/Line is _read_line), and daemon_error_info of errors.py.
-- Switching: all_off of switching.py, with what the client, the clock and the store return for each
--   command as an argument. Switching/One is switch_socket with the route of api/switch.py before it,
--   over a disk that other requests may change while the command is on its way.
-- App: app.py. create_app up to the configuration, one request through the hooks, its route and the
--   error handlers, and set_security_headers. The header store of Werkzeug is `HeaderStore`.
-- CommandLine: __main__.py, from the parsed command to the exit status and the messages that
--   `_say` and load_config write. The terminal, the socket and the servers are the record `Machine`.
-- Tests: runs on small inputs.
--
-- Conventions. A dict that check_document has accepted is a record; where the code compares such
-- dicts with `is`, the model compares their ids, which differ within a document. Code that assigns to
-- a dict it found replaces that dict in the document. Times are numbers of microseconds. An exception
-- is the `err` of a Result; `key_error` is a KeyError of the code, and `no_token` the end of the list
-- of tokens given to new_id, which stands for the answers of `secrets.token_hex`.
--
-- Bounds and fuel. The digits of a number are computed with the number itself as fuel, which is
-- enough since a number is larger than its tenth. _read_line runs with fuel 257: each pass adds a
-- byte to the buffer, and a buffer of more than 256 bytes ends it.
--
-- Not modelled: the inside of Flask, Werkzeug, waitress and argparse, the registration of blueprints
-- (api/__init__.py), what others than `_say` and load_config write to stderr, logging, a
-- KeyboardInterrupt before a server listens, the page (page.py and static), and the C library with
-- its daemon. In All-off the answers of the store to the single commands are a parameter; in
-- switch_socket they are computed.

pub mod Base
pub mod Http
pub mod Json
pub mod Model
pub mod Store
pub mod Jsonutil
pub mod Errors
pub mod Validation
pub mod Api
pub mod Config
pub mod App
pub mod CommandLine
pub mod Daemon
pub mod Switching
pub mod Auth
pub mod Tests
