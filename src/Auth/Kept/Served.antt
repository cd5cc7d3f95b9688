-- ===== src/Auth/Kept/Served.antt =====
-- Whole requests of backend/app/routers/auth.py, and the lead.
use meals.Prelude.{
  ℕ, ◌≤◌, ◌≡◌, refl, sym, ap, subst, String, true, false, Option, some, arith, find, any, Result,
  ok, err, Result-cases, Bool-cases, inl, inr,
}
use meals.Models.{Db}
use meals.Models.Users.{User}
use meals.Accounts.{is_user}
use meals.Accounts.Succession.{IsSound}
use meals.Auth.RateLimit.{auth_rate_limit}
use meals.Auth.Service.{Env, Service, Answer, AuthError, too_many_attempts}
use meals.Auth.Sessions.{get_current_user}
use meals.Auth.Requests.{
  PublicRequest, post_register, post_login, post_password_reset, post_reset_confirm, GuardedRequest,
  post_password, delete_me, UserRequest, get_me, get_own_household, get_invites, get_tokens,
  patch_household, delete_member, delete_invite, delete_token, post_invite, post_redeem, post_token,
  Request, from_anyone, guarded, from_user, Outcome, commit, rate_limited, handle_public,
  handle_guarded, handle_user, with_user, serve,
}
use meals.Auth.Kept.Writes.{IsSound-same}
use meals.Auth.Kept.Handlers.{
  login-IsSound, change_password-IsSound, request_password_reset-IsSound,
  confirm_password_reset-IsSound, create_api_token-IsSound, revoke_api_token-IsSound,
  get_current_user-IsSound,
}
use meals.Auth.Kept.Moves.{
  register-IsSound, delete_account-IsSound, create_invite-IsSound, revoke_invite-IsSound,
  get_household-IsSound, redeem_invite-IsSound, remove_member-IsSound,
}
use meals.Auth.Kept.Changes.{update_household-IsSound}

module _ {Q : Type 0} where
  public-IsSound :
      (env : Env) (request : PublicRequest) (st st' : Service Q) (a : Answer)
      → ((n : ℕ) → st.db.drawn ≤ n → any (is_user (env.uuid4 n)) st.db.users ≡ false)
      → handle_public env request st ≡ ok (a, st')
      → IsSound st.db
      → IsSound st'.db
  unfolding handle_public
  public-IsSound env (post_register payload) st st' a fresh =
      register-IsSound env payload st st' a fresh
  public-IsSound env (post_login email password) st st' a _ =
      login-IsSound env email password st st' a
  public-IsSound env (post_password_reset email) st st' a _ =
      request_password_reset-IsSound env email st st' a
  public-IsSound env (post_reset_confirm code password) st st' a _ =
      confirm_password_reset-IsSound env code password st st' a

  guarded-IsSound :
      (env : Env) (user : User) (request : GuardedRequest) (st st' : Service Q) (a : Answer)
      → find (is_user user.id) st.db.users ≡ some user
      → handle_guarded env user request st ≡ ok (a, st')
      → IsSound st.db
      → IsSound st'.db
  unfolding handle_guarded
  guarded-IsSound env user (post_password current new) st st' a _ =
      change_password-IsSound env user current new st st' a
  guarded-IsSound env user (delete_me password) st st' a found =
      delete_account-IsSound env user password st st' a found

  user-IsSound :
      (env : Env) (user : User) (request : UserRequest) (st st' : Service Q) (a : Answer)
      → find (is_user user.id) st.db.users ≡ some user
      → handle_user env user request st ≡ ok (a, st')
      → IsSound st.db
      → IsSound st'.db
  unfolding handle_user
  user-IsSound env user get_me st st' a _ h sound =
      IsSound-same st.db st'.db (ground (arith, h)) (ground (arith, h)) sound
  user-IsSound env user get_own_household st st' a _ h sound =
      get_household-IsSound user st st' a h sound
  user-IsSound env user get_invites st st' a _ h sound =
      IsSound-same st.db st'.db (ground (arith, h)) (ground (arith, h)) sound
  user-IsSound env user get_tokens st st' a _ h sound =
      IsSound-same st.db st'.db (ground (arith, h)) (ground (arith, h)) sound
  user-IsSound env user (patch_household payload) st st' a _ h sound =
      update_household-IsSound env user payload st st' a h sound
  user-IsSound env user (delete_member id) st st' a _ h sound =
      remove_member-IsSound env user id st st' a h sound
  user-IsSound env user (delete_invite id) st st' a _ h sound =
      revoke_invite-IsSound user id st st' a h sound
  user-IsSound env user (delete_token id) st st' a _ h sound =
      revoke_api_token-IsSound user id st st' a h sound
  user-IsSound env user (post_invite days) st st' a _ h sound =
      create_invite-IsSound env user days st st' a h sound
  user-IsSound env user (post_redeem code force) st st' a found h sound =
      redeem_invite-IsSound env user code force st st' a found h sound
  user-IsSound env user (post_token label days) st st' a _ h sound =
      create_api_token-IsSound env user label days st st' a h sound

  -- What a handler keeps is kept by the request, whether it is committed or rolled back.
  commit-keeps :
      (st : Service Q) (end : Result AuthError (Answer × Service Q))
      → ((a : Answer) (st' : Service Q) → end ≡ ok (a, st') → IsSound st'.db)
      → IsSound st.db
      → IsSound (commit st end).1.db
  unfolding commit
  commit-keeps st (ok (a, st')) keeps sound = keeps a st' refl
  commit-keeps st (err e) keeps sound = sound

  rate_limited-keeps :
      (env : Env) (handler : Service Q → Result AuthError (Answer × Service Q)) (st : Service Q)
      → ((st₁ st' : Service Q) (a : Answer)
          → st₁.db ≡ st.db
          → handler st₁ ≡ ok (a, st')
          → IsSound st'.db)
      → IsSound st.db
      → IsSound (rate_limited env handler st).1.db
  unfolding rate_limited
  rate_limited-keeps env handler st keeps sound =
      let answer = auth_rate_limit env.auth_rate_limit_per_minute env.monotonic st.window in
      let charged : Service Q = record st { window = answer.1 } in
      elim (Bool-cases answer.0) [
        | inl admitted ↦
            subst (λ (o : Outcome Q). IsSound o.1.db)
              (sym (
                ap
                  (λ b. elim b [
                    | true ↦ commit charged (handler charged)
                    | false ↦ (err too_many_attempts, charged)
                  ])
                  admitted))
              (commit-keeps charged (handler charged) (λ a st' h. keeps charged st' a refl h) sound)
        | inr refused ↦
            subst (λ (o : Outcome Q). IsSound o.1.db)
              (sym (
                ap
                  (λ b. elim b [
                    | true ↦ commit charged (handler charged)
                    | false ↦ (err too_many_attempts, charged)
                  ])
                  refused))
              sound
      ]

  with_user-keeps :
      (env : Env) (credentials : Option String) (handler : User → Service Q → Outcome Q)
      (st : Service Q)
      → ((user : User) (st₀ : Service Q)
          → find (is_user user.id) st₀.db.users ≡ some user
          → IsSound st₀.db
          → IsSound (handler user st₀).1.db)
      → IsSound st.db
      → IsSound (with_user env credentials handler st).1.db
  unfolding with_user
  with_user-keeps env credentials handler st keeps sound =
      elim (Result-cases (get_current_user env credentials st.db)) [
        | inr (e, h) ↦
            let ends : (with_user env credentials handler st).1 ≡ st = ground (arith, h) in
            subst (λ (s : Service Q). IsSound s.db) (sym ends) sound
        | inl ((user, db₁), h) ↦
            let (sound₁, found) = get_current_user-IsSound env credentials st.db db₁ user h sound in
            let st₁ : Service Q = record st { db = db₁ } in
            let ends : with_user env credentials handler st ≡ handler user st₁ =
              ground (arith, h) in
            subst (λ (o : Outcome Q). IsSound o.1.db) (sym ends) (keeps user st₁ found sound₁)
      ]

  -- When the database is sound, which means that the ids of users are unique and that the household
  -- with an id, if there is one, is led by one of its members, and no user has an id that is still to
  -- be drawn, then the database is sound behind every request, with any credentials, whether it
  -- is answered or refused.
  pub serve-IsSound :
      (env : Env) (credentials : Option String) (request : Request) (st : Service Q)
      → IsSound st.db
      → ((n : ℕ) → st.db.drawn ≤ n → any (is_user (env.uuid4 n)) st.db.users ≡ false)
      → IsSound (serve env credentials request st).1.db
  unfolding serve
  serve-IsSound env credentials (from_anyone request) st sound fresh =
      rate_limited-keeps env (handle_public env request) st
        (λ st₁ st' a same h.
          public-IsSound env request st₁ st' a
            (subst
              (λ (db : Db Q). (n : ℕ) → db.drawn ≤ n → any (is_user (env.uuid4 n)) db.users ≡ false)
              (sym same) fresh)
            h (subst IsSound (sym same) sound))
        sound
  serve-IsSound env credentials (guarded request) st sound fresh =
      with_user-keeps env credentials (λ user. rate_limited env (handle_guarded env user request))
        st
        (λ user st₀ found kept.
          rate_limited-keeps env (handle_guarded env user request) st₀
            (λ st₁ st' a same h.
              guarded-IsSound env user request st₁ st' a
                (subst (λ (db : Db Q). find (is_user user.id) db.users ≡ some user) (sym same)
                  found)
                h (subst IsSound (sym same) kept))
            kept)
        sound
  serve-IsSound env credentials (from_user request) st sound fresh =
      with_user-keeps env credentials
        (λ user after. commit after (handle_user env user request after)) st
        (λ user st₀ found kept.
          commit-keeps st₀ (handle_user env user request st₀)
            (λ a st' h. user-IsSound env user request st₀ st' a found h kept) kept)
        sound
