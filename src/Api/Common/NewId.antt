-- ===== src/Api/Common/NewId.antt =====
-- The ids that `new_id` returns.
use mathlib.Core.List.{Mem}
use mathlib.Core.Path.{subst}
use librsswitch.Base.{
  ◌≡◌, refl, true, Bool-cases, List, [], ◌∷◌, ◌++◌, inl, inr, length, length-append, All, arith,
}
use librsswitch.Base.Result.{ok}
use librsswitch.Base.Text.{Text, text, contains}
use librsswitch.Model.Check.{all_id_chars, is_id_char, matches_id_pattern}
use librsswitch.Model.Valid.{not-mem_of_contains}
use librsswitch.Api.Common.{new_id}

-- What `secrets.token_hex(6)` returns: twelve characters that an id may have.
pub record IsToken (t : Text) : Type 0 where
  pub length_12 : length t ≡ 12
  pub chars : all_id_chars t ≡ true

-- "r_" and "s_"
pub record IsPrefix (p : Text) : Type 0 where
  pub length_2 : length p ≡ 2
  pub chars : all_id_chars p ≡ true

pub room_prefix : IsPrefix (text "r_")
unfolding text all_id_chars is_id_char
room_prefix = record { length_2 = refl; chars = refl }

pub socket_prefix : IsPrefix (text "s_")
unfolding text all_id_chars is_id_char
socket_prefix = record { length_2 = refl; chars = refl }

all_id_chars-append :
    (s t : Text) → all_id_chars s ≡ true → all_id_chars t ≡ true → all_id_chars (s ++ t) ≡ true
unfolding all_id_chars
all_id_chars-append [] t hs ht = ht
all_id_chars-append (c ∷ s) t hs ht = ground (arith, all_id_chars-append s t)

pattern_of_token : (p t : Text) → IsPrefix p → IsToken t → matches_id_pattern (p ++ t) ≡ true
unfolding matches_id_pattern
pattern_of_token p t hp ht = ground (
  arith,
  length-append {0} p t,
  hp.length_2,
  ht.length_12,
  all_id_chars-append p t hp.chars ht.chars,
)

-- An id that `new_id` returns has the form of an id, and is none of those that are taken.
pub new_id-fresh :
    (p : Text) (taken ts : List Text) (id : Text)
    → IsPrefix p
    → All IsToken ts
    → new_id p taken ts ≡ ok id
    → (matches_id_pattern id ≡ true) × (¬ Mem id taken)
unfolding new_id
new_id-fresh p taken [] id hp ht h = cc
new_id-fresh p taken (t ∷ ts) id hp ht h = elim (Bool-cases (contains (p ++ t) taken)) [
  | inl e ↦ new_id-fresh p taken ts id hp ht.1 (ground arith)
  | inr e ↦
      let same : p ++ t ≡ id = ground arith in
      subst (λ z. (matches_id_pattern z ≡ true) × (¬ Mem z taken)) same
        (pattern_of_token p t hp ht.0, not-mem_of_contains (p ++ t) taken e)
]
