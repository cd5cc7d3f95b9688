-- ===== src/Auth/Kept/Handlers.antt =====
-- The handlers of sessions and passwords in backend/app/routers/auth.py, and the lead.
use meals.Prelude.{
  found_or, found_or-eq-ok, ℕ, ◌≡◌, refl, sym, subst, String, Bool, ◌||◌, raise_if, Option, none,
  some, arith, find, ◌==◌, nat_eq, string_eq, nat_beq_iff, option_eq, find-holds, ok, >>=-eq-ok,
}
use meals.Models.{Db}
use meals.Models.Users.{User}
use meals.Accounts.{is_user}
use meals.Accounts.Succession.{IsSound}
use meals.Auth.Service.{Env, Service, Answer, invalid_token, token_expired, bad_reset_code}
use meals.Auth.Security.{hash_password}
use meals.Auth.Sessions.{
  get_current_user, session_token, forgive, sign_in, login, set_password, delete_tokens,
  change_password, request_password_reset, confirm_password_reset, create_api_token,
  revoke_api_token, is_before, is_over, is_reset,
}
use meals.Auth.Kept.Writes.{IsSound-same, IsSound-change}

module _ {Q : Type 0} where
  pub login-IsSound :
      (env : Env) (email password : String) (st st' : Service Q) (a : Answer)
      → login env email password st ≡ ok (a, st')
      → IsSound st.db
      → IsSound st'.db
  unfolding login sign_in session_token forgive
  login-IsSound env email password st st' a h sound =
      IsSound-same st.db st'.db (ground (arith, h)) (ground (arith, h)) sound

  password-IsSound :
      (env : Env) (id : ℕ) (password : String) (db : Db Q)
      → IsSound db
      → IsSound (set_password env id password db)
  unfolding set_password
  password-IsSound env id password db sound =
      IsSound-change db (is_user id)
        (λ u. record u { password_hash = hash_password env.secrets db.drawn password }) (λ _. refl)
        (λ _. refl) sound

  -- A fresh session behind a new password.
  renewed-IsSound :
      (env : Env) (user : User) (id : ℕ) (kinds : String → Bool) (password : String)
      (st : Service Q)
      → IsSound st.db
      → IsSound
          (sign_in env user
            (record st { db = delete_tokens id kinds (set_password env id password st.db) })).1.db
  unfolding sign_in session_token delete_tokens
  renewed-IsSound env user id kinds password st sound =
      let db = set_password env id password st.db in
      IsSound-same db _ refl refl (password-IsSound env id password st.db sound)

  pub change_password-IsSound :
      (env : Env) (user : User) (current new : String) (st st' : Service Q) (a : Answer)
      → change_password env user current new st ≡ ok (a, st')
      → IsSound st.db
      → IsSound st'.db
  unfolding change_password forgive
  change_password-IsSound env user current new st st' a h sound =
      let user₁ : User = record user {
        password_hash = hash_password env.secrets st.db.drawn new;
      } in
      let st₁ = forgive env st in
      let ends : st'
          ≡ (sign_in env user₁ (record st₁ {
            db =
                delete_tokens user.id (λ kind. kind == "session")
                  (set_password env user.id new st₁.db);
          })).1 =
        ground (arith, h) in
      subst (λ (s : Service Q). IsSound s.db) (sym ends)
        (renewed-IsSound env user₁ user.id (λ kind. kind == "session") new st₁ sound)

  pub request_password_reset-IsSound :
      (env : Env) (email : String) (st st' : Service Q) (a : Answer)
      → request_password_reset env email st ≡ ok (a, st')
      → IsSound st.db
      → IsSound st'.db
  unfolding request_password_reset delete_tokens
  request_password_reset-IsSound env email st st' a h sound =
      IsSound-same st.db st'.db (ground (arith, h)) (ground (arith, h)) sound

  pub create_api_token-IsSound :
      (env : Env) (user : User) (label : String) (days : Option ℕ) (st st' : Service Q) (a : Answer)
      → create_api_token env user label days st ≡ ok (a, st')
      → IsSound st.db
      → IsSound st'.db
  unfolding create_api_token
  create_api_token-IsSound env user label days st st' a h sound =
      IsSound-same st.db st'.db (ground (arith, h)) (ground (arith, h)) sound

  pub revoke_api_token-IsSound :
      (user : User) (id : ℕ) (st st' : Service Q) (a : Answer)
      → revoke_api_token user id st ≡ ok (a, st')
      → IsSound st.db
      → IsSound st'.db
  unfolding revoke_api_token
  revoke_api_token-IsSound user id st st' a h sound =
      IsSound-same st.db st'.db (ground (arith, h)) (ground (arith, h)) sound

  -- The credentials name a user of the table, and nothing that matters here is written.
  pub get_current_user-IsSound :
      (env : Env) (credentials : Option String) (db db' : Db Q) (user : User)
      → get_current_user env credentials db ≡ ok (user, db')
      → IsSound db
      → IsSound db' × (find (is_user user.id) db'.users ≡ some user)
  unfolding get_current_user
  get_current_user-IsSound env none db db' user h sound = ground (arith, h)
  get_current_user-IsSound env (some c) db db' user h sound =
      let (token, _, h₁) = >>=-eq-ok (found_or invalid_token (find _ db.auth_tokens)) _ h in
      let (_, _, h₂) =
        >>=-eq-ok (raise_if (is_before token.expires_at env.clock.now) token_expired) _ h₁ in
      let (row, e, h₃) =
        >>=-eq-ok (found_or invalid_token (find (is_user token.user_id) db.users)) _ h₂ in
      let there : find (is_user token.user_id) db.users ≡ some row =
        found_or-eq-ok invalid_token _ e in
      let same : row ≡ user = ground (arith, h₃) in
      let rows : db'.users ≡ db.users = ground (arith, h₃) in
      let id : row.id ≡ token.user_id =
        (nat_beq_iff row.id token.user_id).0
          (find-holds (is_user token.user_id) db.users row there) in
      (
        IsSound-same db db' rows (ground (arith, h₃)) sound,
        subst (λ us. find (is_user user.id) us ≡ some user) (sym rows)
            (subst (λ (u : User). find (is_user u.id) db.users ≡ some u) same
              (subst (λ i. find (is_user i) db.users ≡ some row) (sym id) there)),
      )

  pub confirm_password_reset-IsSound :
      (env : Env) (code new : String) (st st' : Service Q) (a : Answer)
      → confirm_password_reset env code new st ≡ ok (a, st')
      → IsSound st.db
      → IsSound st'.db
  unfolding confirm_password_reset forgive
  confirm_password_reset-IsSound env code new st st' a h sound =
      let (reset, _, h₁) =
        >>=-eq-ok (found_or bad_reset_code (find (is_reset env code) st.db.auth_tokens)) _ h in
      let (_, _, h₂) =
        >>=-eq-ok (raise_if (is_over reset.expires_at env.clock.now) bad_reset_code) _ h₁ in
      let (user, _, h₃) =
        >>=-eq-ok (found_or bad_reset_code (find (is_user reset.user_id) st.db.users)) _ h₂ in
      let user₁ : User = record user {
        password_hash = hash_password env.secrets st.db.drawn new;
      } in
      let kinds : String → Bool = λ kind. kind == "reset" || kind == "session" in
      let st₁ = forgive env st in
      let ends : st'
          ≡ (sign_in env user₁ (record st₁ {
            db = delete_tokens user.id kinds (set_password env user.id new st₁.db);
          })).1 =
        ground (arith, h₃) in
      subst (λ (s : Service Q). IsSound s.db) (sym ends)
        (renewed-IsSound env user₁ user.id kinds new st₁ sound)
