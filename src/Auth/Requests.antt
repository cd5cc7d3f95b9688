-- ===== src/Auth/Requests.antt =====
-- backend/app/routers/auth.py: a request, with what its dependencies do before its handler.
use meals.Prelude.{ℕ, String, Bool, true, false, Option, Result, ok, err}
use meals.Models.Users.{User}
use meals.Auth.RateLimit.{auth_rate_limit}
use meals.Auth.Service.{Env, Service, RegisterIn, Answer, user_out, AuthError, too_many_attempts}
use meals.Auth.Sessions.{
  get_current_user, login, change_password, request_password_reset, confirm_password_reset,
  create_api_token, list_api_tokens, revoke_api_token,
}
use meals.Auth.Guests.{register, delete_account}
use meals.Auth.Households.{
  HouseholdUpdateIn, get_household, update_household, remove_member, create_invite, list_invites,
  redeem_invite, revoke_invite,
}

-- The requests that need no user.
pub data PublicRequest : Type 0 where
  post_register : RegisterIn → PublicRequest
  post_login : String → String → PublicRequest
  post_password_reset : String → PublicRequest
  post_reset_confirm : String → String → PublicRequest

-- The requests of a user that are charged as attempts, and those that are not.
pub data GuardedRequest : Type 0 where
  post_password : String → String → GuardedRequest
  delete_me : String → GuardedRequest

pub data UserRequest : Type 0 where
  get_me get_own_household get_invites get_tokens : UserRequest
  patch_household : HouseholdUpdateIn → UserRequest
  delete_member delete_invite delete_token : ℕ → UserRequest
  post_invite : ℕ → UserRequest
  post_redeem : String → Bool → UserRequest
  post_token : String → Option ℕ → UserRequest

pub data Request : Type 0 where
  from_anyone : PublicRequest → Request
  guarded : GuardedRequest → Request
  from_user : UserRequest → Request

-- A request is answered or refused, and what a refused handler wrote is rolled back.
abbrev pub Outcome : Type 0 → Type 0
Outcome Q = Result AuthError Answer × Service Q

module _ {Q : Type 0} where
  unfoldable pub commit : Service Q → Result AuthError (Answer × Service Q) → Outcome Q
  commit st (ok (answer, after)) = (ok answer, after)
  commit st (err e) = (err e, st)

  -- `Depends(auth_rate_limit)`
  unfoldable pub rate_limited :
      Env → (Service Q → Result AuthError (Answer × Service Q)) → Service Q → Outcome Q
  unfolding auth_rate_limit commit
  rate_limited env handler st =
      let (admitted, window) =
        auth_rate_limit env.auth_rate_limit_per_minute env.monotonic st.window in
      let charged : Service Q = record st { window = window } in
      elim admitted [
        | true ↦ commit charged (handler charged)
        | false ↦ (err too_many_attempts, charged)
      ]

  unfoldable pub handle_public :
      Env → PublicRequest → Service Q → Result AuthError (Answer × Service Q)
  unfolding register login request_password_reset confirm_password_reset
  handle_public env (post_register payload) st = register env payload st
  handle_public env (post_login email password) st = login env email password st
  handle_public env (post_password_reset email) st = request_password_reset env email st
  handle_public env (post_reset_confirm code password) st =
      confirm_password_reset env code password st

  unfoldable pub handle_guarded :
      Env → User → GuardedRequest → Service Q → Result AuthError (Answer × Service Q)
  unfolding change_password delete_account
  handle_guarded env user (post_password current new) st = change_password env user current new st
  handle_guarded env user (delete_me password) st = delete_account env user password st

  unfoldable pub handle_user :
      Env → User → UserRequest → Service Q → Result AuthError (Answer × Service Q)
  unfolding get_household list_invites list_api_tokens update_household remove_member revoke_invite
      revoke_api_token create_invite redeem_invite create_api_token
  handle_user env user get_me st = ok (user_out user, st)
  handle_user env user get_own_household st = get_household user st
  handle_user env user get_invites st = ok (list_invites user st, st)
  handle_user env user get_tokens st = ok (list_api_tokens user st, st)
  handle_user env user (patch_household payload) st = update_household env user payload st
  handle_user env user (delete_member id) st = remove_member env user id st
  handle_user env user (delete_invite id) st = revoke_invite user id st
  handle_user env user (delete_token id) st = revoke_api_token user id st
  handle_user env user (post_invite days) st = create_invite env user days st
  handle_user env user (post_redeem code force) st = redeem_invite env user code force st
  handle_user env user (post_token label days) st = create_api_token env user label days st

  -- `CurrentUser`: what it writes is committed before the handler runs.
  unfoldable pub with_user :
      Env → Option String → (User → Service Q → Outcome Q) → Service Q → Outcome Q
  unfolding get_current_user
  with_user env credentials handler st = elim (get_current_user env credentials st.db) [
    | err e ↦ (err e, st)
    | ok found ↦ handler found.0 (record st { db = found.1 })
  ]

  unfoldable pub serve : Env → Option String → Request → Service Q → Outcome Q
  unfolding with_user rate_limited commit handle_public handle_guarded handle_user
  serve env credentials (from_anyone request) st = rate_limited env (handle_public env request) st
  serve env credentials (guarded request) st =
      with_user env credentials (λ user. rate_limited env (handle_guarded env user request)) st
  serve env credentials (from_user request) st =
      with_user env credentials (λ user after. commit after (handle_user env user request after)) st
