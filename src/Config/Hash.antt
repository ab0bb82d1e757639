-- ===== src/Config/Hash.antt =====
-- The check of a Werkzeug password hash: _check_hash of examples/web/rsswitch_web/config.py.
use Prim.Native.Nat.{bit_and}
use librsswitch.Base.{
  ℕ, ◌+◌, ◌-◌, ◌*◌, Bool, true, not, ◌&&◌, ◌||◌, List, [], ◌∷◌, ◌++◌, Option, none, some, length,
  leb, ltb, ◌==◌ as nat_eq, if◌then◌else◌,
}
use librsswitch.Base.Text.{Text, text, ◌==◌}
use librsswitch.Json.{Value, null, str}
use librsswitch.Config.{
  Verdict, matches, differs, unusable, Platform, Reason, accepted, refused, crashed, is_empty,
}

abbrev pub max_scrypt_memory : ℕ
max_scrypt_memory = 268435456

abbrev pub max_scrypt_p : ℕ
max_scrypt_p = 16

abbrev pub max_pbkdf2_iterations : ℕ
max_pbkdf2_iterations = 10000000

abbrev pub not_a_hash : Text
not_a_hash =
    text "must be null or a Werkzeug password hash such as " ++ text "scrypt:32768:8:1$salt$hash"

abbrev pub empty_password : Text
empty_password =
    text "is the hash of an empty password; make a hash of a real "
    ++ text "password with hash-password"

-- A character more for the first part of a text that has been split.
unfoldable pub onto_first : ℕ → List Text → List Text
onto_first c [] = (c ∷ []) ∷ []
onto_first c (part ∷ parts) = (c ∷ part) ∷ parts

-- `value.split(sep)`
unfoldable pub split : ℕ → Text → List Text
unfolding onto_first
split sep [] = [] ∷ []
split sep (c ∷ s) = let rest = split sep s in if nat_eq c sep then [] ∷ rest else onto_first c rest

-- `re.fullmatch("[0-9]+", text)`, but for the empty text
unfoldable pub all_digits : Text → Bool
all_digits [] = true
all_digits (c ∷ s) = (leb b'0' c && leb c b'9') && all_digits s

unfoldable pub value_of_digits : ℕ → Text → ℕ
value_of_digits n [] = n
value_of_digits n (c ∷ s) = value_of_digits (10 * n + (c - b'0')) s

-- What `matches` tells of the empty password.
unfoldable pub refuse_empty : Verdict → (Text → Reason) → Reason
refuse_empty matches other = refused empty_password
refuse_empty differs other = accepted
refuse_empty (unusable why) other = other why

module _ (os : Platform) where
  -- `_positive_int`. `none` is the ValueError of `int` for a text with too many digits.
  unfoldable pub positive_int : Text → Option ℕ
  unfolding all_digits is_empty value_of_digits
  positive_int s =
      if is_empty s || not (all_digits s)
      then some 0
      else if ltb os.max_str_digits (length s)
      then none
      else some (value_of_digits 0 s)

  unfoldable pub check_scrypt : Text → ℕ → ℕ → ℕ → Reason
  unfolding refuse_empty
  check_scrypt value n r p =
      if not (((leb 2 n && nat_eq (bit_and n (n - 1)) 0) && leb 1 r) && leb 1 p)
      then refused
          (text "the scrypt parameters must be positive integers " ++ text "and N a power of two")
      else if ltb max_scrypt_memory (128 * n * r) || ltb max_scrypt_p p
      then refused (text "the scrypt parameters are too large")
      else refuse_empty (os.check_password_hash value [])
          (λ why. refused (text "the scrypt parameters cannot be used: " ++ why))

  unfoldable pub check_pbkdf2 : Text → Text → Option ℕ → Reason
  unfolding refuse_empty
  check_pbkdf2 value name iterations =
      if not (os.is_guaranteed name)
      then refused (text "unknown pbkdf2 hash function '" ++ name ++ text "'")
      else if not (os.takes_pbkdf2 name)
      then refused (text "the hash function '" ++ name ++ text "' cannot be used")
      else elim iterations [
        | none ↦ crashed
        | some i ↦
            if ltb i 1
            then refused (text "the pbkdf2 iterations must be a positive integer")
            else if ltb max_pbkdf2_iterations i
            then refused (text "the pbkdf2 iterations are too many")
            else refuse_empty (os.check_password_hash value []) (λ why. crashed)
      ]

  -- The three conversions, in order.
  unfoldable pub check_scrypt_texts : Text → Text → Text → Text → Reason
  unfolding check_scrypt positive_int
  check_scrypt_texts value n r p = elim (positive_int n) [
    | none ↦ crashed
    | some n' ↦ elim (positive_int r) [
      | none ↦ crashed
      | some r' ↦ elim (positive_int p) [ none ↦ crashed | some p' ↦ check_scrypt value n' r' p' ]
    ]
  ]

  unfoldable pub check_method : Text → List Text → Reason
  unfolding check_scrypt_texts check_pbkdf2
  check_method value (name ∷ n ∷ r ∷ p ∷ []) =
      if name == text "scrypt" then check_scrypt_texts value n r p else refused not_a_hash
  check_method value (name ∷ function ∷ iterations ∷ []) =
      if name == text "pbkdf2"
      then check_pbkdf2 value function (positive_int iterations)
      else refused not_a_hash
  check_method value _ = refused not_a_hash

  unfoldable pub check_parts : Text → List Text → Reason
  unfolding check_method split
  check_parts value (method ∷ salt ∷ digest ∷ []) =
      if is_empty salt || is_empty digest
      then refused not_a_hash
      else check_method value (split b':' method)
  check_parts value _ = refused not_a_hash

  unfoldable pub check_hash : Value → Reason
  unfolding check_parts
  check_hash null = accepted
  check_hash (str value) = check_parts value (split b'$' value)
  check_hash _ = refused not_a_hash
