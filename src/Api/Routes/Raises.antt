-- ===== src/Api/Routes/Raises.antt =====
-- What the functions of the routes can raise.
use librsswitch.Base.{
  ◌≡◌, refl, ℕ, Bool, true, false, ◌||◌, List, [], ◌∷◌, ◌++◌, Option, none, some, ◌==◌ as nat_eq,
  if◌then◌else◌,
}
use librsswitch.Base.Result.{ok, err, ◌>>=◌, raise_if}
use librsswitch.Base.Text.{Text, text, ◌==◌, contains}
use librsswitch.Json.{
  Value, null, bool, int, float, str, arr, obj, Items, nil, cons, Fields, get, keys_of,
}
use librsswitch.Errors.{
  Abort, api_error, http_error, key_error, no_token, Handled, failure, field_failure,
  reject_unknown_fields,
}
use librsswitch.Model.Types.{find_kind, address_problem, Room}
use librsswitch.Model.Check.{first_unknown}
use librsswitch.Store.Find.{find_room, find_socket}
use librsswitch.Validation.{type_failure, check_kind, check_address_fields, check_socket_fields}
use librsswitch.Store.Record.{Address}
use librsswitch.Api.Common.{
  new_id, get_room, get_socket, not_a_list, texts_of, text_list_of, id_list, get_or_null,
  check_permutation, by_id, pick,
}
use librsswitch.Api.Sockets

-- The statuses of an ApiError that a client can mend.
abbrev pub is_client_error : ℕ → Bool
is_client_error n = nat_eq n 400 || nat_eq n 404 || nat_eq n 409 || nat_eq n 422

abbrev pub IsDeclared : Abort → Type 0
IsDeclared (api_error e) = is_client_error e.status ≡ true
IsDeclared (http_error e) = e.code ≡ 413
IsDeclared key_error = Unit {0}
IsDeclared no_token = Unit {0}

-- Whatever it raises has one of these statuses.
abbrev pub Raises : {A : Type 0} → Handled A → Type 0
Raises (ok a) = Unit {0}
Raises (err e) = IsDeclared e

pub >>=-Raises :
    {A B : Type 0} (m : Handled A) (f : A → Handled B)
    → Raises m
    → ((a : A) → Raises (f a))
    → Raises (m >>= f)
unfolding ◌>>=◌
>>=-Raises (ok a) f hm hf = hf a
>>=-Raises (err e) f hm hf = hm

pub raise_if-Raises : (b : Bool) (e : Abort) → IsDeclared e → Raises (raise_if b e)
raise_if-Raises true e h = h
raise_if-Raises false e h = tt

pub if-Raises :
    {A : Type 0} (b : Bool) (x y : Handled A) → Raises x → Raises y → Raises (if b then x else y)
if-Raises true x y hx hy = hx
if-Raises false x y hx hy = hy

-- A lookup that raises where nothing is found.
found-Raises :
    {A B : Type 0} (o : Option A) (e : Abort) (f : A → Handled B)
    → IsDeclared e
    → ((a : A) → Raises (f a))
    → Raises (elim o [ none ↦ err e | some a ↦ f a ])
found-Raises none e f he hf = he
found-Raises (some a) e f he hf = hf a

-- A field that is not allowed.
unknown-Raises :
    (o : Option Text)
    → Raises {A = Unit {0}} (elim o [
      | none ↦ ok tt
      | some key ↦ err (field_failure 422 (text "validation") (text "unknown field") key)
    ])
unfolding field_failure
unknown-Raises none = tt
unknown-Raises (some key) = refl

pub reject_unknown_fields-Raises :
    (body : Fields) (allowed : List Text) → Raises (reject_unknown_fields body allowed)
unfolding reject_unknown_fields
reject_unknown_fields-Raises body allowed = unknown-Raises (first_unknown (keys_of body) allowed)

pub new_id-Raises : (prefix : Text) (taken tokens : List Text) → Raises (new_id prefix taken tokens)
unfolding new_id
new_id-Raises prefix taken [] = tt
new_id-Raises prefix taken (t ∷ ts) =
    if-Raises (contains (prefix ++ t) taken) _ _ (new_id-Raises prefix taken ts) tt

pub get_room-Raises : (rooms : List Room) (rid : Text) → Raises (get_room rooms rid)
unfolding get_room failure
get_room-Raises rooms rid = found-Raises (find_room rooms rid) _ ok refl (λ a. tt)

pub get_socket-Raises : (rooms : List Room) (sid : Text) → Raises (get_socket rooms sid)
unfolding get_socket failure
get_socket-Raises rooms sid = found-Raises (find_socket rooms sid) _ ok refl (λ a. tt)

texts_of-Raises : (vs : Items) → Raises (texts_of vs)
unfolding texts_of not_a_list field_failure
texts_of-Raises nil = tt
texts_of-Raises (cons null vs) = refl
texts_of-Raises (cons (bool b) vs) = refl
texts_of-Raises (cons (int i) vs) = refl
texts_of-Raises (cons (float x) vs) = refl
texts_of-Raises (cons (str t) vs) = >>=-Raises (texts_of vs) _ (texts_of-Raises vs) (λ ts. tt)
texts_of-Raises (cons (arr ws) vs) = refl
texts_of-Raises (cons (obj fs) vs) = refl

text_list_of-Raises : (v : Value) → Raises (text_list_of v)
unfolding text_list_of not_a_list field_failure
text_list_of-Raises null = refl
text_list_of-Raises (bool b) = refl
text_list_of-Raises (int i) = refl
text_list_of-Raises (float x) = refl
text_list_of-Raises (str t) = refl
text_list_of-Raises (arr vs) = texts_of-Raises vs
text_list_of-Raises (obj fs) = refl

pub id_list-Raises : (body : Fields) → Raises (id_list body)
unfolding id_list
id_list-Raises body = text_list_of-Raises (get_or_null (text "ids") body)

pub check_permutation-Raises : (ids current : List Text) → Raises (check_permutation ids current)
unfolding check_permutation failure
check_permutation-Raises ids current = raise_if-Raises _ _ refl

pub pick-Raises :
    {A : Type 0} (id_of : A → Text) (xs : List A) (ids : List Text) → Raises (pick id_of xs ids)
unfolding pick
pick-Raises id_of xs [] = tt
pick-Raises id_of xs (i ∷ ids) =
    found-Raises (by_id id_of xs i) key_error _ tt
      (λ x. >>=-Raises (pick id_of xs ids) _ (pick-Raises id_of xs ids) (λ rest. tt))

check_kind-Raises : (v : Value) → Raises (check_kind v)
unfolding check_kind type_failure field_failure
check_kind-Raises null = refl
check_kind-Raises (bool b) = refl
check_kind-Raises (int i) = refl
check_kind-Raises (float x) = refl
check_kind-Raises (str t) = found-Raises (find_kind t) _ ok refl (λ k. tt)
check_kind-Raises (arr vs) = refl
check_kind-Raises (obj fs) = refl

problem-Raises :
    (o : Option (Text × Text)) (a : Address)
    → Raises {A = Address} (elim o [
      | some (name, message) ↦ err (field_failure 422 (text "validation") message name)
      | none ↦ ok a
    ])
unfolding field_failure
problem-Raises none a = tt
problem-Raises (some (name, message)) a = refl

pub check_socket_fields-Raises : (t g n : Value) → Raises (check_socket_fields t g n)
unfolding check_socket_fields check_address_fields
check_socket_fields-Raises t g n =
    >>=-Raises (check_kind t) _ (check_kind-Raises t)
      (λ k. problem-Raises (address_problem k g n) _)

named_room-Raises :
    (rooms : List Room) (room : Room) (v : Value) → Raises (Sockets.named_room rooms room v)
unfolding Sockets.named_room field_failure
named_room-Raises rooms room null = refl
named_room-Raises rooms room (bool b) = refl
named_room-Raises rooms room (int i) = refl
named_room-Raises rooms room (float x) = refl
named_room-Raises rooms room (str rid) =
    if-Raises (rid == room.id) _ _ tt (found-Raises (find_room rooms rid) _ ok refl (λ r. tt))
named_room-Raises rooms room (arr vs) = refl
named_room-Raises rooms room (obj fs) = refl

-- The room of the body, where it names one.
named_if-Raises :
    (rooms : List Room) (room : Room) (o : Option Value)
    → Raises {A = Room} (elim o [ none ↦ ok room | some v ↦ Sockets.named_room rooms room v ])
named_if-Raises rooms room none = tt
named_if-Raises rooms room (some v) = named_room-Raises rooms room v

pub target_room-Raises :
    (rooms : List Room) (room : Room) (body : Fields) → Raises (Sockets.target_room rooms room body)
unfolding Sockets.target_room
target_room-Raises rooms room body = named_if-Raises rooms room (get (text "room_id") body)
