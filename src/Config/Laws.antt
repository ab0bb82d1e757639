-- ===== src/Config/Laws.antt =====
-- What a configuration that resolve_config of examples/web/rsswitch_web/config.py returns is like.
use mathlib.Core.Path.{subst}
use librsswitch.Base.{
  ℕ, ◌≤◌, ◌≡◌, refl, sym, ◌∙◌, Bool, true, false, List, [], ◌∷◌, Option, none, some, All, arith,
}
use librsswitch.Base.Int.{pos, negsuc}
use librsswitch.Base.Result.{ok, >>=-eq-ok}
use librsswitch.Base.Text.{Text, text}
use librsswitch.Json.{Value, null, bool, int, float, str, arr, obj, Fields, end, keys_of}
use librsswitch.Model.Check.{first_unknown}
use librsswitch.Config.{
  Platform, Reason, accepted, refused, crashed, is_int, or_refused, check_port, check_threads,
  check_gap, check_host_text, check_host, check_username,
}
use librsswitch.Config.Resolve.{
  Key, daemon_host, daemon_port, daemon_connect_timeout, daemon_read_timeout, listen_address,
  listen_port, threads, data_file, all_off_gap_ms, username, password_hash, all_keys, key_names,
  Settings, Configured, laid_over, raise_reason, is_null, as_admin, with_login, check_of,
  check_keys, resolve_with, resolve_known, resolve_fields, resolve_config,
}

raise_reason-ok : (key : Key) (r : Reason) → raise_reason key r ≡ ok tt → r ≡ accepted
unfolding raise_reason
raise_reason-ok key accepted h = refl
raise_reason-ok key (refused why) h = cc
raise_reason-ok key crashed h = cc

abbrev pub IsIn : ℕ → ℕ → Value → Type 0
IsIn low high v = (n : ℕ) × (v ≡ int (pos n)) × (low ≤ n) × (n ≤ high)

or_refused-accepted : (b : Bool) (why : Text) → or_refused b why ≡ accepted → b ≡ true
unfolding or_refused
or_refused-accepted true why h = refl
or_refused-accepted false why h = cc

is_int-IsIn : (v : Value) (low high : ℕ) → is_int v low high ≡ true → IsIn low high v
unfolding is_int
is_int-IsIn (int (pos n)) low high h = (n, refl, ground arith, ground arith)
is_int-IsIn (int (negsuc n)) low high h = cc
is_int-IsIn null low high h = cc
is_int-IsIn (bool b) low high h = cc
is_int-IsIn (float x) low high h = cc
is_int-IsIn (str t) low high h = cc
is_int-IsIn (arr vs) low high h = cc
is_int-IsIn (obj fs) low high h = cc

pub settings_eq : {a b : Settings} → ◌≡◌ {A = Configured Settings} (ok a) (ok b) → a ≡ b
settings_eq h = cc

module _ (os : Platform) where
  abbrev pub IsIpv4 : Value → Type 0
  IsIpv4 v = (t : Text) × (v ≡ str t) × (os.ip_version t ≡ some 4)

  check_host_text-accepted :
      (t : Text) (o : Option ℕ) → check_host_text os t o ≡ accepted → o ≡ some 4
  unfolding check_host_text
  check_host_text-accepted t none h = absurd (ground arith)
  check_host_text-accepted t (some n) h = ground arith

  check_host-IsIpv4 : (v : Value) → check_host os v ≡ accepted → IsIpv4 v
  unfolding check_host
  check_host-IsIpv4 (str t) h = (t, refl, check_host_text-accepted t (os.ip_version t) h)
  check_host-IsIpv4 null h = cc
  check_host-IsIpv4 (bool b) h = cc
  check_host-IsIpv4 (int i) h = cc
  check_host-IsIpv4 (float x) h = cc
  check_host-IsIpv4 (arr vs) h = cc
  check_host-IsIpv4 (obj fs) h = cc

  -- A configuration that the app can run with.
  pub record IsUsable (cfg : Settings) : Type 0 where
    pub checked : (key : Key) → check_of os key (cfg key) ≡ accepted
    pub login : is_null (cfg username) ≡ is_null (cfg password_hash)

  check_keys-passed :
      (keys : List Key) (cfg : Settings)
      → check_keys os keys cfg ≡ ok tt
      → All (λ key. check_of os key (cfg key) ≡ accepted) keys
  unfolding check_keys
  check_keys-passed [] cfg h = tt
  check_keys-passed (key ∷ keys) cfg h =
      let (_, passed, rest) = >>=-eq-ok _ _ h in
      (raise_reason-ok key _ passed, check_keys-passed keys cfg rest)

  at_key : (P : Key → Type 0) → All P all_keys → (key : Key) → P key
  at_key P (a, (b, (c, (d, (e, (f, (g, (h, (i, (j, (k, _))))))))))) key = elim key as (λ z. P z) [
    | daemon_host ↦ a
    | daemon_port ↦ b
    | daemon_connect_timeout ↦ c
    | daemon_read_timeout ↦ d
    | listen_address ↦ e
    | listen_port ↦ f
    | threads ↦ g
    | data_file ↦ h
    | all_off_gap_ms ↦ i
    | username ↦ j
    | password_hash ↦ k
  ]

  as_admin-checked :
      (cfg : Settings)
      → check_username os (str (text "admin")) ≡ accepted
      → ((key : Key) → check_of os key (cfg key) ≡ accepted)
      → (key : Key) → check_of os key (as_admin cfg key) ≡ accepted
  unfolding as_admin check_of
  as_admin-checked cfg admin h daemon_host = h daemon_host
  as_admin-checked cfg admin h daemon_port = h daemon_port
  as_admin-checked cfg admin h daemon_connect_timeout = h daemon_connect_timeout
  as_admin-checked cfg admin h daemon_read_timeout = h daemon_read_timeout
  as_admin-checked cfg admin h listen_address = h listen_address
  as_admin-checked cfg admin h listen_port = h listen_port
  as_admin-checked cfg admin h threads = h threads
  as_admin-checked cfg admin h data_file = h data_file
  as_admin-checked cfg admin h all_off_gap_ms = h all_off_gap_ms
  as_admin-checked cfg admin h username = admin
  as_admin-checked cfg admin h password_hash = h password_hash

  as_admin-login :
      (cfg : Settings)
      → is_null (cfg password_hash) ≡ false
      → is_null (as_admin cfg username) ≡ is_null (as_admin cfg password_hash)
  unfolding as_admin is_null
  as_admin-login cfg h = sym h

  with_login-IsUsable :
      (cfg cfg' : Settings) (a b : Bool)
      → check_username os (str (text "admin")) ≡ accepted
      → ((key : Key) → check_of os key (cfg key) ≡ accepted)
      → is_null (cfg username) ≡ a
      → is_null (cfg password_hash) ≡ b
      → with_login a b cfg ≡ ok cfg'
      → IsUsable cfg'
  unfolding with_login
  with_login-IsUsable cfg cfg' true true admin checked ea eb h =
      subst IsUsable (settings_eq h) (record { checked = checked; login = ea ∙ sym eb })
  with_login-IsUsable cfg cfg' true false admin checked ea eb h =
      subst IsUsable (settings_eq h)
        (record { checked = as_admin-checked cfg admin checked; login = as_admin-login cfg eb })
  with_login-IsUsable cfg cfg' false true admin checked ea eb h = cc
  with_login-IsUsable cfg cfg' false false admin checked ea eb h =
      subst IsUsable (settings_eq h) (record { checked = checked; login = ea ∙ sym eb })

  resolve_known-IsUsable :
      (o : Option Text) (mapping : Fields) (cfg : Settings)
      → check_username os (str (text "admin")) ≡ accepted
      → resolve_known os o mapping ≡ ok cfg
      → IsUsable cfg
  unfolding resolve_known resolve_with
  resolve_known-IsUsable (some key) mapping cfg admin h = cc
  resolve_known-IsUsable none mapping cfg admin h =
      let laid = laid_over mapping in
      let (_, passed, done) = >>=-eq-ok _ _ h in
      with_login-IsUsable laid cfg _ _ admin (at_key _ (check_keys-passed all_keys laid passed))
        refl refl done

  resolve_fields-IsUsable :
      (mapping : Fields) (cfg : Settings)
      → check_username os (str (text "admin")) ≡ accepted
      → resolve_fields os mapping ≡ ok cfg
      → IsUsable cfg
  unfolding resolve_fields
  resolve_fields-IsUsable mapping cfg admin h =
      resolve_known-IsUsable (first_unknown (keys_of mapping) key_names) mapping cfg admin h

  -- Every value of a configuration that `resolve_config` returns has passed the check of its key, the
  -- `admin` that it may fill in included, and it has a user name exactly when it has a password hash:
  -- no login that was asked for is left out. The check has to accept `admin`.
  pub resolve_config-IsUsable :
      (v : Value) (cfg : Settings)
      → check_username os (str (text "admin")) ≡ accepted
      → resolve_config os v ≡ ok cfg
      → IsUsable cfg
  unfolding resolve_config
  resolve_config-IsUsable null cfg admin h = resolve_fields-IsUsable end cfg admin h
  resolve_config-IsUsable (obj fields) cfg admin h = resolve_fields-IsUsable fields cfg admin h
  resolve_config-IsUsable (bool b) cfg admin h = cc
  resolve_config-IsUsable (int i) cfg admin h = cc
  resolve_config-IsUsable (float x) cfg admin h = cc
  resolve_config-IsUsable (str t) cfg admin h = cc
  resolve_config-IsUsable (arr vs) cfg admin h = cc

  -- A usable configuration names an IPv4 address of rsswitchd and ports, threads and a pause within
  -- their limits.
  pub IsUsable-ranges :
      (cfg : Settings)
      → IsUsable cfg
      → IsIpv4 (cfg daemon_host)
        × IsIn 1 65535 (cfg daemon_port)
        × IsIn 0 65535 (cfg listen_port)
        × IsIn 1 16 (cfg threads)
        × IsIn 0 10000 (cfg all_off_gap_ms)
  unfolding check_of check_port check_threads check_gap
  IsUsable-ranges cfg u = (
    check_host-IsIpv4 _ (u.checked daemon_host),
    is_int-IsIn _ 1 65535 (or_refused-accepted _ _ (u.checked daemon_port)),
    is_int-IsIn _ 0 65535 (or_refused-accepted _ _ (u.checked listen_port)),
    is_int-IsIn _ 1 16 (or_refused-accepted _ _ (u.checked threads)),
    is_int-IsIn _ 0 10000 (or_refused-accepted _ _ (u.checked all_off_gap_ms)),
  )
