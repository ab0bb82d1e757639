-- ===== src/App/Headers.antt =====
-- The headers of every response.
use librsswitch.Base.{
  ◌≡◌, refl, Bool, true, false, ◌&&◌, [], ◌∷◌, Option, none, some, if◌then◌else◌, arith,
}
use librsswitch.Base.Text.{Text, text}
use librsswitch.Errors.Handlers.{Response}
use librsswitch.App.{
  Headers, HeaderStore, security_headers, is_api_path, set_defaults, no_store_if,
  set_security_headers,
}

-- The header that is there, or the other value.
abbrev pub first_of : Option Text → Option Text → Option Text
first_of none other = other
first_of (some value) other = some value

-- Two spellings of one name, as the header store tells them apart.
module _ (same : Text → Text → Bool) where
  -- The documented behaviour of the header store.
  pub record IsHeaderStore (store : HeaderStore) : Type 0 where
    pub find-set_default :
        (name value other : Text) (hs : Headers)
        → store.find other (store.set_default name value hs) ≡ (
            if same name other
            then first_of (store.find other hs) (some value)
            else store.find other hs)
    pub find-set :
        (name value other : Text) (hs : Headers)
        → store.find other (store.set name value hs)
          ≡ (if same name other then some value else store.find other hs)

  -- The first value that a list gives a name.
  abbrev pub listed : Text → Headers → Option Text
  listed name [] = none
  listed name ((n, v) ∷ rest) = if same n name then some v else listed name rest

  module _ (store : HeaderStore) (is_store : IsHeaderStore store) where
    find-set_defaults :
        (defaults hs : Headers) (name : Text)
        → store.find name (set_defaults store defaults hs)
          ≡ first_of (store.find name hs) (listed name defaults)
    unfolding set_defaults
    find-set_defaults [] hs name = ground arith
    find-set_defaults ((n, v) ∷ rest) hs name = ground (
      arith,
      find-set_defaults rest (store.set_default n v hs) name,
      is_store.find-set_default n v name hs,
    )

    find-no_store_if :
        (b : Bool) (hs : Headers) (name : Text)
        → store.find name (no_store_if store b hs) ≡ (
            if b && same (text "Cache-Control") name
            then some (text "no-store")
            else store.find name hs)
    unfolding no_store_if
    find-no_store_if true hs name = is_store.find-set _ _ name hs
    find-no_store_if false hs name = refl

    -- Every header of every response, the answers to errors included: an answer under /api/ is never
    -- stored, a header that the response has is left as it is, and a header of SECURITY_HEADERS that it
    -- has not is added. The header store has to do what it documents.
    pub find-set_security_headers :
        (path : Text) (r : Response) (name : Text)
        → store.find name (set_security_headers store path r).headers ≡ (
            if is_api_path path && same (text "Cache-Control") name
            then some (text "no-store")
            else first_of (store.find name r.headers) (listed name security_headers))
    unfolding set_security_headers
    find-set_security_headers path r name = ground (
      arith,
      find-no_store_if (is_api_path path) (set_defaults store security_headers r.headers) name,
      find-set_defaults security_headers r.headers name,
    )
