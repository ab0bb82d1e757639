-- ===== src/Validation/Names.antt =====
-- The names that `clean_name` of examples/web/rsswitch_web/validation.py returns.
use librsswitch.Base.{
  ℕ, ◌<◌, ◌≤◌, ◌≡◌, ◌↔◌, refl, sym, Bool, true, false, [], ◌∷◌, All, length, ltb, arith,
}
use mathlib.Core.Path.{subst}
use librsswitch.Base.Result.{>>=-eq-ok, ok, ◌>>=◌, raise_if}
use librsswitch.Base.Text.{Text}
use librsswitch.Errors.{Abort, Handled}
use librsswitch.Json.{str}
use librsswitch.Validation.{
  Unicode, max_name_len, is_control, is_surrogate, strip, check_characters, all_invisible, is_empty,
  check_name, clean_name,
}

module _ (u : Unicode) where
  -- Neither a control character nor a surrogate.
  abbrev pub IsStorable : ℕ → Type 0
  IsStorable c = (is_control (u.category c) ≡ false) × (is_surrogate (u.category c) ≡ false)

  -- What a stored name is: 1 to 64 code points, none of them refused, and one of them visible.
  pub record IsName (name : Text) : Type 0 where
    pub not_empty : 0 < length name
    pub not_long : length name ≤ max_name_len
    pub storable : All IsStorable name
    pub visible : all_invisible u name ≡ false

  IsStorable-of_check : (s field : Text) → check_characters u s field ≡ ok tt → All IsStorable s
  unfolding check_characters
  IsStorable-of_check [] field h = tt
  IsStorable-of_check (c ∷ s) field h =
      ((ground arith, ground arith), IsStorable-of_check s field (ground arith))

  check-of_IsStorable : (s field : Text) → All IsStorable s → check_characters u s field ≡ ok tt
  unfolding check_characters
  check-of_IsStorable [] field h = refl
  check-of_IsStorable (c ∷ s) field h = rw h.0.0 (rw h.0.1 (check-of_IsStorable s field h.1))

  empty_iff : (s : Text) → (is_empty u s ≡ false) ↔ (0 < length s)
  unfolding is_empty
  empty_iff [] = (λ h. absurd (ground arith), λ h. absurd (omega arith))
  empty_iff (c ∷ s) = (λ h. omega arith, λ h. refl)

  pub raise_if_passed :
      (b : Bool) (e : Abort) → ◌≡◌ {A = Handled (Unit {0})} (raise_if b e) (ok tt) → b ≡ false
  raise_if_passed true e h = cc
  raise_if_passed false e h = refl

  check_name_passed :
      (s field name : Text) → check_name u s field ≡ ok name → (s ≡ name) × IsName name
  unfolding check_name
  check_name_passed s field name h =
      let (_, h1, e1) = >>=-eq-ok _ _ h in
      let (_, h2, e2) = >>=-eq-ok _ _ e1 in
      let (_, h3, e3) = >>=-eq-ok _ _ e2 in
      let (_, h4, e4) = >>=-eq-ok _ _ e3 in
      let same : s ≡ name = ground arith in
      (
        same,
        subst IsName same (record {
          not_empty = (empty_iff s).0 (raise_if_passed _ _ h1);
          not_long = ground (arith, raise_if_passed _ _ h2);
          storable = IsStorable-of_check s field h3;
          visible = raise_if_passed _ _ h4;
        }),
      )

  check_name_of_IsName : (name field : Text) → IsName name → check_name u name field ≡ ok name
  unfolding check_name ◌>>=◌
  check_name_of_IsName name field h =
      let short : ltb max_name_len (length name) ≡ false = ground (arith, h.not_long) in
      rw ((empty_iff name).1 h.not_empty)
        (rw short (rw (check-of_IsStorable name field h.storable) (rw h.visible refl)))

  -- `clean_name` returns a name exactly where the trimmed NFC form of the string is one, and it
  -- returns that form.
  pub clean_name-ok_iff :
      (value field name : Text)
      → (clean_name u (str value) field ≡ ok name) ↔ ((strip u (u.nfc value) ≡ name) × IsName name)
  unfolding clean_name
  clean_name-ok_iff value field name = (
    check_name_passed (strip u (u.nfc value)) field name,
    λ h.
        subst (λ s. check_name u s field ≡ ok name) (sym h.0) (check_name_of_IsName name field h.1),
  )
