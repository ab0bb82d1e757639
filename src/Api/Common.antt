-- ===== src/Api/Common.antt =====
-- What the room routes and the socket routes share: `new_id` of
-- examples/web/rsswitch_web/model.py, and the helpers of examples/web/rsswitch_web/api/rooms.py and
-- api/sockets.py. Where the code compares dicts with `is`, the model compares their ids, which
-- differ within a document.
pub mod Order
pub mod NewId
use librsswitch.Base.{
  ℕ, Bool, true, false, not, ◌&&◌, ◌||◌, List, [], ◌∷◌, ◌++◌, Option, none, some, length,
  ◌==◌ as nat_eq, if◌then◌else◌,
}
use mathlib.Core.List
use librsswitch.Base.Result.{Result, ok, err, ◌>>=◌, ◌>>◌, raise_if}
use librsswitch.Base.Text.{Text, text, ◌==◌, contains}
use librsswitch.Json.{Value, null, str, arr, Items, nil, cons, Fields, get}
use librsswitch.Errors.{
  Abort, Handled, key_error, no_token, not_found, invalid, field_failure, failure,
}
use librsswitch.Model.Types.{Socket, Room}
use librsswitch.Store.Find.{find_room, find_socket}
use librsswitch.Validation.{Unicode, name_key}

-- The loop of `new_id`. `tokens` are the answers of `secrets.token_hex(6)`, in order.
unfoldable pub new_id : Text → List Text → List Text → Handled Text
new_id prefix taken [] = err no_token
new_id prefix taken (t ∷ ts) =
    let again = new_id prefix taken ts in
    if contains (prefix ++ t) taken then again else ok (prefix ++ t)

-- `body.get(key)`, null for a key that is not there
unfoldable pub get_or_null : Text → Fields → Value
get_or_null key body = elim (get key body) [ none ↦ null | some v ↦ v ]

unfoldable pub get_room : List Room → Text → Handled Room
get_room rooms rid = elim (find_room rooms rid) [
  | none ↦ err (not_found (text "room not found"))
  | some room ↦ ok room
]

unfoldable pub get_socket : List Room → Text → Handled (Room × Socket)
get_socket rooms sid = elim (find_socket rooms sid) [
  | none ↦ err (not_found (text "socket not found"))
  | some found ↦ ok found
]

unfoldable pub is_own : Option Text → Text → Bool
is_own none id = false
is_own (some own) id = id == own

unfoldable pub room_conflict : Abort
room_conflict =
    field_failure 409 (text "name_conflict") (text "a room with this name already exists")
      (text "name")

unfoldable pub socket_conflict : Abort
socket_conflict =
    field_failure 409 (text "name_conflict")
      (text "a socket with this name already exists in the room") (text "name")

module _ (u : Unicode) where
  -- The loops of `check_room_name` and `check_socket_name`, over (id, name). `own` is the id of the
  -- entry that may have the name.
  unfoldable pub is_taken : Text → Option Text → List (Text × Text) → Bool
  unfolding is_own
  is_taken key own [] = false
  is_taken key own ((id, name) ∷ rest) =
      (not (is_own own id) && name_key u name == key) || is_taken key own rest

  abbrev pub room_names : List Room → List (Text × Text)
  room_names = List.map (λ r. (r.id, r.name))

  abbrev pub socket_names : List Socket → List (Text × Text)
  socket_names = List.map (λ s. (s.id, s.name))

  unfoldable pub check_room_name : List Room → Text → Option Text → Handled (Unit {0})
  check_room_name rooms name own =
      raise_if (is_taken (name_key u name) own (room_names rooms)) room_conflict

  unfoldable pub check_socket_name : Room → Text → Option Text → Handled (Unit {0})
  check_socket_name room name own =
      raise_if (is_taken (name_key u name) own (socket_names room.sockets)) socket_conflict

unfoldable pub not_a_list : Abort
not_a_list = invalid (text "must be a list of strings") (text "ids")

unfoldable pub texts_of : Items → Handled (List Text)
unfolding not_a_list
texts_of nil = ok []
texts_of (cons (str t) vs) = do ts ← texts_of vs; ok (t ∷ ts)
texts_of (cons _ vs) = err not_a_list

unfoldable pub text_list_of : Value → Handled (List Text)
unfolding texts_of
text_list_of (arr vs) = texts_of vs
text_list_of _ = err not_a_list

unfoldable pub id_list : Fields → Handled (List Text)
unfolding get_or_null text_list_of
id_list body = text_list_of (get_or_null (text "ids") body)

-- `set(ids)`
unfoldable pub set_of : List Text → List Text
set_of [] = []
set_of (x ∷ xs) = let rest = set_of xs in if contains x xs then rest else x ∷ rest

unfoldable pub all_in : List Text → List Text → Bool
all_in [] ys = true
all_in (x ∷ xs) ys = contains x ys && all_in xs ys

-- The test of `check_permutation`
unfoldable pub is_permutation : List Text → List Text → Bool
unfolding set_of all_in
is_permutation ids current =
    nat_eq (length ids) (length (set_of ids)) && (all_in ids current && all_in current ids)

unfoldable pub check_permutation : List Text → List Text → Handled (Unit {0})
check_permutation ids current = raise_if (not (is_permutation ids current)) (
    failure 409 (text "order_mismatch")
      (text "the list is not the current set of ids; reload and try again"))

module _ {A : Type 0} (id_of : A → Text) where
  -- `{x["id"]: x for x in xs}`, where a later entry takes the place of an earlier one
  unfoldable pub by_id : List A → Text → Option A
  by_id [] i = none
  by_id (x ∷ xs) i = elim (by_id xs i) [
    | some later ↦ some later
    | none ↦ if id_of x == i then some x else none
  ]

  -- `[by_id[i] for i in ids]`
  unfoldable pub pick : List A → List Text → Handled (List A)
  pick xs [] = ok []
  pick xs (i ∷ ids) = elim (by_id xs i) [
    | none ↦ err key_error
    | some x ↦ do rest ← pick xs ids; ok (x ∷ rest)
  ]
