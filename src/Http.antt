-- ===== src/Http.antt =====
-- The exceptions of Werkzeug, as far as the handlers of errors.py read them.
use librsswitch.Base.{ℕ, List}
use librsswitch.Base.Text.{Text}

-- An HTTPException of Werkzeug: a code of None is 0.
pub record HttpError : Type 0 where
  pub code : ℕ
  pub name : Text
  pub description : Text
  pub headers : List (Text × Text)
  -- the methods of a MethodNotAllowed, where it has any
  pub valid_methods : List Text
