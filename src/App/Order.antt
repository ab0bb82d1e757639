-- ===== src/App/Order.antt =====
-- The login comes before everything else.
use librsswitch.Base.{◌≡◌, ◌≢◌, ◌⊎◌, inl, inr, refl, some}
use librsswitch.Base.Result.{Result}
use librsswitch.Base.Text.{Text}
use librsswitch.Errors.{Request}
use librsswitch.Errors.Handlers.{
  Response, Raised, handle, handle_api_error, handle_unexpected, error_response,
}
use librsswitch.Store.File.{Disk}
use librsswitch.Auth.Hook.{Answer, admitted, too_many, unauthorized, crashed}
use librsswitch.App.{
  HeaderStore, answer_request, login_hook, login_error, after_hooks, respond, set_security_headers,
}

module _ (store : HeaderStore) (lower : Text → Text) where
  -- A request that is not admitted is answered with 401, 429 or 500, whatever its path, its method and
  -- its body are: neither the content type gate nor the route is asked, and the disk is as before.
  pub answer_request_refused :
      (answer : Answer) (request : Request) (path : Text)
      (route : Disk → Result Raised Response × Disk) (disk : Disk)
      → answer ≢ admitted
      → let (r, after) = answer_request store lower (some answer) request path route disk in
        (after ≡ disk) × ((r.status ≡ 401) ⊎ (r.status ≡ 429) ⊎ (r.status ≡ 500))
  unfolding answer_request login_hook login_error after_hooks respond handle handle_api_error
      handle_unexpected error_response set_security_headers
  answer_request_refused admitted request path route disk h = absurd (h refl)
  answer_request_refused (too_many wait) request path route disk h = (refl, inr (inl refl))
  answer_request_refused unauthorized request path route disk h = (refl, inl refl)
  answer_request_refused crashed request path route disk h = (refl, inr (inr refl))
