-- ===== src/Base/Text.antt =====
-- Python's `str`: a sequence of code points, lone surrogates included, which `String` cannot hold.
use Prim.Native.Nat.{ℕ, zero, suc, ◌+◌, ◌/◌, ◌%◌}
use Prim.Native.Char.{code}
use Prim.Native.String.{String}
use mathlib.Core.Path.{◌≡◌, refl}
use mathlib.Core.Logic.{◌↔◌}
use mathlib.Core.Bool.{Bool, true, false, ◌&&◌, ◌||◌}
use mathlib.Core.List.{List, [], ◌∷◌}
use native.Mathlib.Omega.{arith}
use librsswitch.Base.Tests.{ltb, ◌==◌ as nat_eq, if◌then◌else◌}

abbrev pub Text : Type 0
Text = List ℕ

-- A literal. It stays shut, so that a proof does not carry its characters.
unfoldable pub text : String → Text
text String.[] = []
text (String.◌∷◌ c s) = code c ∷ text s

infix 50 ◌==◌
unfoldable pub ◌==◌ : Text → Text → Bool
[] == [] = true
[] == (d ∷ t) = false
(c ∷ s) == [] = false
(c ∷ s) == (d ∷ t) = nat_eq c d && (s == t)

pub eq_refl : (s : Text) → (s == s) ≡ true
unfolding ◌==◌
eq_refl [] = refl
eq_refl (c ∷ s) = ground (arith, eq_refl s)

pub eq_iff : (s t : Text) → ((s == t) ≡ true) ↔ (s ≡ t)
unfolding ◌==◌
eq_iff [] [] = ground arith
eq_iff [] (d ∷ t) = ground arith
eq_iff (c ∷ s) [] = ground arith
eq_iff (c ∷ s) (d ∷ t) = ground (arith, eq_iff s t)

-- Python's `<` on strings: by code point, a prefix first.
unfoldable pub lt_text : Text → Text → Bool
lt_text [] [] = false
lt_text [] (d ∷ t) = true
lt_text (c ∷ s) [] = false
lt_text (c ∷ s) (d ∷ t) = ltb c d || (nat_eq c d && lt_text s t)

-- `in`, on a collection of strings
unfoldable pub contains : Text → List Text → Bool
contains x [] = false
contains x (y ∷ ys) = x == y || contains x ys

-- "%d" of a number that is not negative. The fuel `n` is enough, since `n / 10 < n`.
digits : ℕ → ℕ → Text → Text
digits zero n out = out
digits (suc fuel) n out =
    let rest = digits fuel (n / 10) ((b'0' + n % 10) ∷ out) in if nat_eq n 0 then out else rest

unfoldable pub decimal : ℕ → Text
unfolding digits
decimal n = if nat_eq n 0 then b'0' ∷ [] else digits n n []

decimal_128 : decimal 128 ≡ text "128"
unfolding decimal text
decimal_128 = refl
