-- ===== src/Json.antt =====
-- What `json.loads` returns, for examples/web/rsswitch_web/jsonutil.py and its callers.
use librsswitch.Base.{ℕ, Bool, false, ◌||◌, List, [], ◌∷◌, Option, none, some, if◌then◌else◌}
use librsswitch.Base.Int.{ℤ}
use librsswitch.Base.Text.{Text, ◌==◌}

-- A Python float: m / 2 ^ k, or an infinity (true for the positive one).
pub data Float : Type 0 where
  finite : ℤ → ℕ → Float
  infinite : Bool → Float

mutual
  pub data Value : Type 0 where
    null : Value
    bool : Bool → Value
    int : ℤ → Value
    float : Float → Value
    str : Text → Value
    arr : Items → Value
    obj : Fields → Value

  pub data Items : Type 0 where
    nil : Items
    cons : Value → Items → Items

  -- A dict in the order of its keys, each key once.
  pub data Fields : Type 0 where
    end : Fields
    field : Text → Value → Fields → Fields

-- `fields.get(key)`, with `none` for a key that is not there.
unfoldable pub get : Text → Fields → Option Value
get key end = none
get key (field k v fs) = if k == key then some v else get key fs

abbrev pub keys_of : Fields → List Text
keys_of end = []
keys_of (field k v fs) = k ∷ keys_of fs

-- `key in fields`
unfoldable pub has : Text → Fields → Bool
has key end = false
has key (field k v fs) = k == key || has key fs
