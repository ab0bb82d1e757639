-- ===== src/Tests/Hooks.antt =====
-- Runs of the hook of the login, and of a request as a whole.
use librsswitch.Base.{
  ◌≡◌, ◌⊎◌, ◌≤◌, refl, false, List, [], ◌∷◌, Option, none, some, arith, ℕ, ◌==◌ as nat_eq,
  if◌then◌else◌, ◌&&◌,
}
use librsswitch.Base.Result.{Result, ok}
use librsswitch.Base.Text.{Text, text, ◌==◌, eq_iff}
use librsswitch.Json.{null}
use librsswitch.Errors.{Request, post}
use librsswitch.Errors.Handlers.{Response, json_response, Raised}
use librsswitch.Store.File.{Disk}
use librsswitch.Auth.{default_limits, lookup}
use librsswitch.Auth.Hook.{
  Site, admitted, unauthorized, arrived, Thread, Shared, Event, arrives, runs, play,
}
use librsswitch.Auth.Hook.Vouched.{IsGuarded, play-IsGuarded}
use librsswitch.Auth.Hook.Exclusion.{holders, play_exclusion}
use librsswitch.Auth.Hook.Cache.{IsSmall, play-IsSmall}
use librsswitch.Auth.Hook.Progress.{IsVouched, Ends, play_answers}
use librsswitch.App.{
  Headers, HeaderStore, answer_request, set_security_headers, security_headers, is_api_path,
}
use librsswitch.App.Headers.{first_of, listed, IsHeaderStore, find-set_security_headers}
use librsswitch.App.Order.{answer_request_refused}
use librsswitch.Tests.Documents.{new_disk}

-- A header that starts with "!" has no credentials; in another, the name and the password are the
-- header itself.
abbrev site : Site
site = record {
  username = b'o' ∷ [];
  limits = default_limits;
  authorization = λ header. elim header [
    | [] ↦ none
    | c ∷ rest ↦ if nat_eq c b'!' then none else some (c ∷ rest, c ∷ rest)
  ];
  sha256 = λ header. header;
  check_password = λ password. some (password == (b'o' ∷ []));
}

abbrev quiet : Shared
quiet = record { entries = []; cache = []; busy = false }

-- Two requests from one address that take their turns alternately.
abbrev story : List Event
story =
    arrives (b'1' ∷ []) (b'o' ∷ [])
    ∷ arrives (b'1' ∷ []) (b'x' ∷ [])
    ∷ runs 0 1
    ∷ runs 1 2
    ∷ runs 0 3
    ∷ runs 1 4
    ∷ runs 1 5
    ∷ runs 0 6
    ∷ runs 1 7
    ∷ []

play-IsGuarded_example : IsGuarded site (play site story ([], quiet))
play-IsGuarded_example = play-IsGuarded site story [] quiet (tt, tt)

play_exclusion_example : holders (play site story ([], quiet)).0 ≤ 1
play_exclusion_example = play_exclusion site story [] quiet refl

play-IsSmall_example : IsSmall (play site story ([], quiet)).1
play-IsSmall_example = play-IsSmall site story ([], quiet) (omega arith)

abbrev visitor : Thread
visitor = record { addr = b'1' ∷ []; header = b'o' ∷ []; phase = arrived }

abbrev times : List ℕ
times = 1 ∷ 2 ∷ 3 ∷ 4 ∷ 5 ∷ 6 ∷ 7 ∷ []

play_answers_example :
    ((site.authorization visitor.header ≡ none)
      × Ends site visitor unauthorized arrived quiet times)
    ⊎ ((c : Text × Text) × (site.authorization visitor.header ≡ some c)
        × ((IsVouched site visitor quiet.cache × Ends site visitor admitted arrived quiet times)
            ⊎ ((¬ IsVouched site visitor quiet.cache)
                × Ends site visitor unauthorized arrived quiet times)))
unfolding lookup
play_answers_example =
    play_answers site visitor quiet times refl (omega arith, omega arith, λ e h. ground arith)
      (omega arith)

-- The header store of an association list, which tells names apart by their letters.
abbrev find_header : Text → Headers → Option Text
find_header name [] = none
find_header name ((n, v) ∷ hs) = if n == name then some v else find_header name hs

abbrev if_missing : Option Text → Text → Text → Headers → Headers
if_missing none name value hs = (name, value) ∷ hs
if_missing (some old) name value hs = hs

abbrev headers : HeaderStore
headers = record {
  find = find_header;
  set_default = λ name value hs. if_missing (find_header name hs) name value hs;
  set = λ name value hs. (name, value) ∷ hs;
}

missing_here :
    (o : Option Text) (name value other : Text) (hs : Headers)
    → find_header name hs ≡ o
    → find_header other (if_missing o name value hs) ≡ (
        if name == other
        then first_of (find_header other hs) (some value)
        else find_header other hs)
missing_here none name value other hs e = ground (arith, e, eq_iff name other)
missing_here (some old) name value other hs e = ground (arith, e, eq_iff name other)

headers-IsHeaderStore : IsHeaderStore (λ n m. n == m) headers
headers-IsHeaderStore = record {
  find-set_default = λ name value other hs. missing_here _ name value other hs refl;
  find-set = λ name value other hs. refl;
}

find-set_security_headers_example :
    find_header
      (text "X-Frame-Options")
      (set_security_headers headers (text "/api/rooms") (json_response 200 null)).headers
    ≡ (if is_api_path (text "/api/rooms") && (text "Cache-Control" == text "X-Frame-Options")
        then some (text "no-store")
        else first_of
            (find_header (text "X-Frame-Options") [])
            (listed (λ n m. n == m) (text "X-Frame-Options") security_headers))
find-set_security_headers_example =
    find-set_security_headers (λ n m. n == m) headers headers-IsHeaderStore (text "/api/rooms")
      (json_response 200 null) (text "X-Frame-Options")

abbrev request : Request
request = record {
  method = post;
  content_length = some 2;
  has_transfer_encoding = false;
  mimetype = [];
}

abbrev route : Disk → Result Raised Response × Disk
route disk = (ok (json_response 200 null), record disk { has_parent = false })

answer_request_refused_example :
    let (r, after) =
      answer_request headers
        (λ t. t)
        (some unauthorized)
        request
        (text "/api/rooms")
        route
        new_disk in
    (after ≡ new_disk) × ((r.status ≡ 401) ⊎ (r.status ≡ 429) ⊎ (r.status ≡ 500))
answer_request_refused_example =
    answer_request_refused headers (λ t. t) unauthorized request (text "/api/rooms") route new_disk
      (λ h. ground arith)
