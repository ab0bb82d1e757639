-- ===== src/Validation.antt =====
-- Checks of what a client sends: examples/web/rsswitch_web/validation.py. The tables of
-- `unicodedata` and the string methods that rest on them are parameters.
pub mod Names
use librsswitch.Base.{
  ℕ, Bool, true, false, not, ◌&&◌, ◌||◌, List, [], ◌∷◌, ◌++◌, Option, none, some, length, ltb,
  if◌then◌else◌,
}
use mathlib.Core.List.{reverse}
use librsswitch.Base.Result.{Result, ok, err, ◌>>=◌, ◌>>◌, raise_if}
use librsswitch.Base.Text.{Text, text}
use librsswitch.Base.Int.{pos}
use librsswitch.Json.{Value, int, str}
use librsswitch.Errors.{Abort, Handled, invalid}
use librsswitch.Model.Types.{Kind, kind_names, find_kind, address_problem}
use librsswitch.Store.Record.{Address}

-- The general categories that the code asks for: Cc, Cs, Cf, Zs and all others.
pub data Category : Type 0 where
  control surrogate format_char space other : Category

pub record Unicode : Type 0 where
  pub nfc : Text → Text
  pub casefold : Text → Text
  pub is_space : ℕ → Bool
  pub category : ℕ → Category

abbrev pub max_name_len : ℕ
max_name_len = 64

unfoldable pub is_control : Category → Bool
is_control control = true
is_control _ = false

unfoldable pub is_surrogate : Category → Bool
is_surrogate surrogate = true
is_surrogate _ = false

-- category in ("Cf", "Zs")
unfoldable pub is_invisible : Category → Bool
is_invisible format_char = true
is_invisible space = true
is_invisible _ = false

module _ (u : Unicode) where
  unfoldable pub lstrip : Text → Text
  lstrip [] = []
  lstrip (c ∷ s) = if u.is_space c then lstrip s else c ∷ s

  -- `str.strip`
  unfoldable pub strip : Text → Text
  unfolding lstrip
  strip s = reverse (lstrip (reverse (lstrip s)))

  -- The loop over the characters of a name.
  unfoldable pub check_characters : Text → Text → Handled (Unit {0})
  check_characters [] field = ok tt
  check_characters (c ∷ s) field =
      let rest = check_characters s field in
      if is_control (u.category c)
      then err (invalid (text "must not contain control characters") field)
      else if is_surrogate (u.category c)
      then err (invalid (text "must not contain invalid characters") field)
      else rest

  unfoldable pub all_invisible : Text → Bool
  all_invisible [] = true
  all_invisible (c ∷ s) = is_invisible (u.category c) && all_invisible s

  unfoldable pub is_empty : Text → Bool
  is_empty [] = true
  is_empty (c ∷ s) = false

  unfoldable pub check_name : Text → Text → Handled Text
  unfolding is_empty
  check_name name field = do
    raise_if (is_empty name) (invalid (text "must not be empty") field)
    raise_if (ltb max_name_len (length name)) (invalid (text "must be at most 64 characters") field)
    check_characters name field
    raise_if (all_invisible name) (invalid (text "must contain a visible character") field)
    ok name

  unfoldable pub clean_name : Value → Text → Handled Text
  unfolding check_name strip
  clean_name (str value) field = check_name (strip (u.nfc value)) field
  clean_name _ field = err (invalid (text "must be a string") field)

  unfoldable pub name_key : Text → Text
  name_key name = u.nfc (u.casefold (u.nfc name))

unfoldable pub type_failure : Abort
type_failure = invalid (text "must be one of " ++ text kind_names) (text "type")

unfoldable pub check_kind : Value → Handled Kind
unfolding type_failure
check_kind (str name) = elim (find_kind name) [ some kind ↦ ok kind | none ↦ err type_failure ]
check_kind _ = err type_failure

-- The number that `address_problem` has accepted.
unfoldable pub accepted_number : Value → ℕ
accepted_number (int (pos n)) = n
accepted_number _ = 0

unfoldable pub check_address_fields : Kind → Value → Value → Handled Address
unfolding accepted_number
check_address_fields kind group number = elim (address_problem kind group number) [
  | some (name, message) ↦ err (invalid message name)
  | none ↦
      ok (record { kind = kind; group = accepted_number group; number = accepted_number number })
]

-- `check_socket_fields`, of the values of type, group and number, null for one that is missing
unfoldable pub check_socket_fields : Value → Value → Value → Handled Address
unfolding check_kind check_address_fields
check_socket_fields type_name group number = do
  kind ← check_kind type_name
  check_address_fields kind group number
