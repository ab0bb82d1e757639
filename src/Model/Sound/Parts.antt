-- ===== src/Model/Sound/Parts.antt =====
-- What each check of a part has shown when it returns.
use librsswitch.Base.{
  ℕ, ◌<◌, ◌≡◌, refl, Bool, true, false, not, Bool-cases, List, ◌∷◌, Option, none, some, inl, inr,
  arith,
}
use librsswitch.Base.Int.{pos, negsuc}
use librsswitch.Base.Result.{ok, raise_if, >>=-eq-ok}
use librsswitch.Base.Text.{Text, text, ◌==◌, contains}
use librsswitch.Json.{Value, null, int, str, obj, Fields}
use librsswitch.Model.Types.{
  Kind, socket_types, format_version, in_range, address_problem, State, on, off, LastSent,
}
use librsswitch.Model.Check.{
  Checked, CheckError, subscript, check_id, check_str, is_state, check_last_sent, check_type,
  check_address, matches_id_pattern, is_version,
}
use librsswitch.Model.View.{read, text_of, number_of, kind_of, state_of, last_sent_of}

pub ok_injective : {a b : List Text} → ◌≡◌ {A = Checked (List Text)} (ok a) (ok b) → b ≡ a
ok_injective h = cc

-- A subscript that is there, and whose value is read.
pub read_of_subscript :
    {A : Type 0} (key : Text) (of : Value → Option A) (fields : Fields) {v : Value} {a : A}
    → subscript key fields ≡ ok v
    → of v ≡ some a
    → read key of fields ≡ some a
unfolding subscript read
read_of_subscript key of fields h e = ground arith

pub check_id-ok :
    (v : Value) (path : Text) (seen : List Text) {seen' : List Text}
    → check_id v path seen ≡ ok seen'
    → (id : Text) × (text_of v ≡ some id)
      × (seen' ≡ id ∷ seen)
      × (contains id seen ≡ false)
      × (matches_id_pattern id ≡ true)
unfolding check_id text_of
check_id-ok (str s) path seen h = (s, refl, ground arith, ground arith, ground arith)
check_id-ok _ path seen h = cc

pub check_str-ok :
    (v : Value) (path : Text) → check_str v path ≡ ok tt → (s : Text) × (text_of v ≡ some s)
unfolding check_str text_of
check_str-ok (str s) path h = (s, refl)
check_str-ok _ path h = cc

is_state-ok : (v : Value) → is_state v ≡ true → (s : State) × (state_of v ≡ some s)
unfolding is_state state_of
is_state-ok (str s) h = elim (Bool-cases (s == text "on")) [
  | inl e ↦ (on, rw e)
  | inr e ↦ (off, ground arith)
]
is_state-ok _ h = cc

pub raise_if-ok : (b : Bool) (e : CheckError) → raise_if (not b) e ≡ ok tt → b ≡ true
raise_if-ok b e h = ground arith

pub check_type-ok :
    (v : Value) (path : Text) (k : Kind) → check_type v path ≡ ok k → kind_of v ≡ some k
unfolding check_type kind_of
check_type-ok (str s) path k h = ground arith
check_type-ok _ path k h = cc

pub in_range-ok :
    (v : Value) (limit : ℕ)
    → in_range v limit ≡ true
    → (n : ℕ) × (number_of v ≡ some n) × (n < limit)
unfolding in_range number_of
in_range-ok (int (pos n)) limit h = (n, refl, ground arith)
in_range-ok (int (negsuc n)) limit h = cc
in_range-ok _ limit h = cc

pub check_address-ok :
    (k : Kind) (group number : Value) (path : Text)
    → check_address k group number path ≡ ok tt
    → (in_range group (socket_types k).groups ≡ true)
      × (in_range number (socket_types k).sockets ≡ true)
unfolding check_address address_problem
check_address-ok k group number path h = ground arith

last_sent_of-fields :
    (fields : Fields) {state : State} {at : Text}
    → read (text "state") state_of fields ≡ some state
    → read (text "at") text_of fields ≡ some at
    → last_sent_of (obj fields) ≡ some (some (record { state = state; at = at }))
unfolding last_sent_of
last_sent_of-fields fields e1 e2 = rw (e1, e2)

pub check_last_sent-ok :
    (v : Value) (path : Text)
    → check_last_sent v path ≡ ok tt
    → (l : Option LastSent) × (last_sent_of v ≡ some l)
unfolding check_last_sent last_sent_of
check_last_sent-ok null path h = (none, refl)
check_last_sent-ok (obj fields) path h =
    let (_, _, h1) = >>=-eq-ok _ _ h in
    let (v, e, h2) = >>=-eq-ok _ _ h1 in
    let (_, is_on_off, h3) = >>=-eq-ok _ _ h2 in
    let (w, e', h4) = >>=-eq-ok _ _ h3 in
    let (state, es) = is_state-ok v (raise_if-ok _ _ is_on_off) in
    let (at, ea) = check_str-ok w _ h4 in
    (
      some (record { state = state; at = at }),
      last_sent_of-fields fields (read_of_subscript _ _ _ e es) (read_of_subscript _ _ _ e' ea),
    )
check_last_sent-ok _ path h = cc

pub is_version-ok : (v : Value) → is_version v ≡ true → number_of v ≡ some format_version
unfolding is_version number_of
is_version-ok (int (pos n)) h = ground arith
is_version-ok (int (negsuc n)) h = cc
is_version-ok _ h = cc
