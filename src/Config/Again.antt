-- ===== src/Config/Again.antt =====
-- What resolve_config of examples/web/rsswitch_web/config.py keeps of a mapping, and what it makes of
-- its own result.
use mathlib.Core.Path.{subst, fun_ext}
use librsswitch.Base.{
  ◌≡◌, refl, sym, ap, ◌∙◌, Bool, true, false, Bool-cases, List, [], ◌∷◌, Option, none, some, inl,
  inr, arith,
}
use librsswitch.Base.Result.{ok, ◌>>=◌, >>=-eq-ok}
use librsswitch.Base.Text.{Text, text, ◌==◌, contains, eq_iff}
use librsswitch.Json.{Value, str, obj, Fields, end, field, get, keys_of}
use librsswitch.Model.Check.{first_unknown}
use librsswitch.Config.{Platform, accepted, check_username}
use librsswitch.Config.Resolve.{
  Key, daemon_host, daemon_port, daemon_connect_timeout, daemon_read_timeout, listen_address,
  listen_port, threads, data_file, all_off_gap_ms, username, password_hash, all_keys, key_name,
  key_names, Settings, laid_over, raise_reason, is_null, as_admin, with_login, check_of, check_keys,
  resolve_with, resolve_known, resolve_fields, resolve_config,
}
use librsswitch.Config.Laws.{IsUsable, settings_eq, resolve_config-IsUsable}

-- The dict that a configuration is.
abbrev pub fields_from : List Key → Settings → Fields
fields_from [] cfg = end
fields_from (key ∷ keys) cfg = field (key_name key) (cfg key) (fields_from keys cfg)

abbrev pub dict_of : Settings → Value
dict_of cfg = obj (fields_from all_keys cfg)

known_keys : (cfg : Settings) → first_unknown (keys_of (fields_from all_keys cfg)) key_names ≡ none
unfolding first_unknown contains key_name text ◌==◌
known_keys cfg = refl

laid_over-fields_from :
    (cfg : Settings) (key : Key) → laid_over (fields_from all_keys cfg) key ≡ cfg key
unfolding laid_over get key_name text ◌==◌
laid_over-fields_from cfg daemon_host = refl
laid_over-fields_from cfg daemon_port = refl
laid_over-fields_from cfg daemon_connect_timeout = refl
laid_over-fields_from cfg daemon_read_timeout = refl
laid_over-fields_from cfg listen_address = refl
laid_over-fields_from cfg listen_port = refl
laid_over-fields_from cfg threads = refl
laid_over-fields_from cfg data_file = refl
laid_over-fields_from cfg all_off_gap_ms = refl
laid_over-fields_from cfg username = refl
laid_over-fields_from cfg password_hash = refl

with_login_same : (a b : Bool) (cfg : Settings) → a ≡ b → with_login a b cfg ≡ ok cfg
unfolding with_login
with_login_same true true cfg h = refl
with_login_same true false cfg h = cc
with_login_same false true cfg h = cc
with_login_same false false cfg h = refl

not_null : (v : Value) → is_null v ≡ true → is_null v ≡ false → ⊥
not_null v h k = cc

as_admin-keeps :
    (cfg : Settings) (key : Key)
    → is_null (cfg username) ≡ true
    → is_null (cfg key) ≡ false
    → as_admin cfg key ≡ cfg key
unfolding as_admin
as_admin-keeps cfg username h k = absurd (not_null (cfg username) h k)
as_admin-keeps cfg daemon_host h k = refl
as_admin-keeps cfg daemon_port h k = refl
as_admin-keeps cfg daemon_connect_timeout h k = refl
as_admin-keeps cfg daemon_read_timeout h k = refl
as_admin-keeps cfg listen_address h k = refl
as_admin-keeps cfg listen_port h k = refl
as_admin-keeps cfg threads h k = refl
as_admin-keeps cfg data_file h k = refl
as_admin-keeps cfg all_off_gap_ms h k = refl
as_admin-keeps cfg password_hash h k = refl

with_login-keeps :
    (a b : Bool) (cfg cfg' : Settings) (key : Key)
    → is_null (cfg username) ≡ a
    → is_null (cfg key) ≡ false
    → with_login a b cfg ≡ ok cfg'
    → cfg' key ≡ cfg key
unfolding with_login
with_login-keeps true true cfg cfg' key e k h = ap (λ (c : Settings). c key) (sym (settings_eq h))
with_login-keeps true false cfg cfg' key e k h =
    ap (λ (c : Settings). c key) (sym (settings_eq h)) ∙ as_admin-keeps cfg key e k
with_login-keeps false true cfg cfg' key e k h = cc
with_login-keeps false false cfg cfg' key e k h = ap (λ (c : Settings). c key) (sym (settings_eq h))

first_unknown-none :
    (ks keys : List Text) (k : Text)
    → first_unknown ks keys ≡ none
    → contains k ks ≡ true
    → contains k keys ≡ true
unfolding first_unknown contains
first_unknown-none [] keys k h m = cc
first_unknown-none (j ∷ ks) keys k h m = elim (Bool-cases (k == j)) [
  | inl e ↦ subst (λ z. contains z keys ≡ true) (sym ((eq_iff k j).0 e)) (ground arith)
  | inr e ↦ elim (Bool-cases (contains j keys)) [
    | inl e' ↦ first_unknown-none ks keys k (ground arith) (ground arith)
    | inr e' ↦ absurd (ground arith)
  ]
]

module _ (os : Platform) where
  check_keys_pass :
      (keys : List Key) (cfg : Settings)
      → ((key : Key) → check_of os key (cfg key) ≡ accepted)
      → check_keys os keys cfg ≡ ok tt
  unfolding check_keys raise_reason ◌>>=◌
  check_keys_pass [] cfg h = refl
  check_keys_pass (key ∷ keys) cfg h = rw (h key) (check_keys_pass keys cfg h)

  -- The parts of an accepted mapping.
  resolved :
      (o : Option Text) (mapping : Fields) (cfg : Settings)
      → resolve_known os o mapping ≡ ok cfg
      → (o ≡ none)
        × (with_login
              (is_null (laid_over mapping username))
              (is_null (laid_over mapping password_hash))
              (laid_over mapping)
            ≡ ok cfg)
  unfolding resolve_known resolve_with
  resolved (some key) mapping cfg h = cc
  resolved none mapping cfg h = let (_, _, done) = >>=-eq-ok _ _ h in (refl, done)

  resolve_with-IsUsable : (cfg : Settings) → IsUsable os cfg → resolve_with os cfg ≡ ok cfg
  unfolding resolve_with ◌>>=◌
  resolve_with-IsUsable cfg u =
      rw (check_keys_pass all_keys cfg u.checked) (with_login_same _ _ cfg u.login)

  IsUsable-again : (cfg : Settings) → IsUsable os cfg → resolve_config os (dict_of cfg) ≡ ok cfg
  unfolding resolve_config resolve_fields resolve_known
  IsUsable-again cfg u =
      let mapping = fields_from all_keys cfg in
      ap (λ o. resolve_known os o mapping) (known_keys cfg)
      ∙ ap (resolve_with os) (fun_ext (laid_over-fields_from cfg))
      ∙ resolve_with-IsUsable cfg u

  -- The configuration that `resolve_config` returns is a mapping that it accepts, and it returns it as
  -- it is. The check has to accept `admin`.
  pub resolve_config_again :
      (v : Value) (cfg : Settings)
      → check_username os (str (text "admin")) ≡ accepted
      → resolve_config os v ≡ ok cfg
      → resolve_config os (dict_of cfg) ≡ ok cfg
  resolve_config_again v cfg admin h = IsUsable-again cfg (resolve_config-IsUsable os v cfg admin h)

  -- No part of an accepted mapping is passed over: each of its keys is one of DEFAULTS, and a value
  -- that is not null is in the configuration as it is.
  pub resolve_config-keeps :
      (mapping : Fields) (cfg : Settings)
      → resolve_config os (obj mapping) ≡ ok cfg
      → ((k : Text) → contains k (keys_of mapping) ≡ true → contains k key_names ≡ true)
        × ((key : Key) (v : Value)
            → get (key_name key) mapping ≡ some v
            → is_null v ≡ false
            → cfg key ≡ v)
  unfolding resolve_config resolve_fields laid_over
  resolve_config-keeps mapping cfg h =
      let (known, done) = resolved _ mapping cfg h in
      (
        λ k. first_unknown-none (keys_of mapping) key_names k known,
        λ key v given real.
            let same : laid_over mapping key ≡ v = ground (arith, given) in
            with_login-keeps _ _ (laid_over mapping) cfg key refl (ap is_null same ∙ real) done
            ∙ same,
      )
