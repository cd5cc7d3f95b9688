-- ===== src/Auth/Sessions.antt =====
-- backend/app/deps.py and backend/app/routers/auth.py: signing in, passwords and tokens.
pub mod Passwords
use meals.Prelude.{
  ℕ, suc, ◌+◌, ◌*◌, String, Bool, true, false, ◌&&◌, ◌||◌, not, ltb, leb, Option, none, some, List,
  [], ◌∷◌, ◌++◌, keep, find, map, update_first, update_where, erase_first, ◌==◌, nat_eq, string_eq,
  if◌then◌else◌, Result, ok, err, ◌>>=◌, ◌>>◌, raise_if, map_err, found_or,
}
use meals.Models.{Db}
use meals.Models.Users.{User, AuthToken}
use meals.Limits.Tiers.{api_tokens}
use meals.Limits.Enforce.{day, enforce}
use meals.Accounts.{is_user}
use meals.Auth.RateLimit.{forgive_auth_attempt, minute}
use meals.Auth.Security.{
  verify_password, hash_password, generate_token, generate_short_code, hash_token, hash_short_code,
}
use meals.Auth.Service.{
  Env, Service, ResetMail, Answer, signed_in, user_out, accepted, token_created, token_list,
  no_content, AuthError, missing_token, invalid_token, token_expired, bad_login, wrong_password,
  same_password, email_not_configured, bad_reset_code, no_such_token, limit_reached,
}

-- `.in_(AUTHENTICATING_KINDS)`
unfoldable pub is_authenticating : AuthToken → Bool
is_authenticating t = t.kind == "session" || t.kind == "api"

-- `expires_at is not None and expires_at < now`, and `<=`
abbrev pub is_before : Option ℕ → ℕ → Bool
is_before none now = false
is_before (some expires) now = ltb expires now

abbrev pub is_over : Option ℕ → ℕ → Bool
is_over none now = false
is_over (some expires) now = leb expires now

unfoldable pub is_reset : Env → String → AuthToken → Bool
unfolding hash_short_code
is_reset env code t = t.token_hash == hash_short_code env.secrets code && t.kind == "reset"

unfoldable pub is_api_token : User → AuthToken → Bool
is_api_token user t = t.user_id == user.id && t.kind == "api"

module _ {Q : Type 0} where
  -- `Depends(_bearer)` hands over the credentials, if there are any.
  unfoldable pub get_current_user : Env → Option String → Db Q → Result AuthError (User × Db Q)
  unfolding is_authenticating find update_first
  get_current_user env none db = err missing_token
  get_current_user env (some credentials) db = do
    token ← found_or invalid_token (
        find (λ t. t.token_hash == hash_token env.secrets credentials && is_authenticating t)
          db.auth_tokens)
    raise_if (is_before token.expires_at env.clock.now) token_expired
    user ← found_or invalid_token (find (is_user token.user_id) db.users)
    ok (
      user,
      record db {
        auth_tokens =
            update_first (λ t. t.id == token.id)
              (λ t. record t { last_used_at = some env.clock.now }) db.auth_tokens;
      },
    )

  -- `_find_user`
  unfoldable pub find_user : String → Db Q → Option User
  unfolding find
  find_user email db = find (λ u. u.email == email) db.users

  -- `_session_token`, added to the table; the plaintext is returned.
  unfoldable pub session_token : Env → User → Db Q → String × Db Q
  unfolding generate_token
  session_token env user db =
      let (plain, hashed) = generate_token env.secrets db.drawn in
      (
        plain,
        record db {
          auth_tokens =
              db.auth_tokens
              ++ (record {
                id = env.uuid4 db.drawn;
                user_id = user.id;
                token_hash = hashed;
                kind = "session";
                label = none;
                expires_at = some (env.clock.now + env.session_token_ttl_days * day);
                last_used_at = none;
              }
                  ∷ []);
          drawn = suc db.drawn;
        },
      )

  -- `forgive_auth_attempt(request)`
  unfoldable pub forgive : Env → Service Q → Service Q
  forgive env st = record st {
    window = forgive_auth_attempt env.auth_rate_limit_per_minute st.window;
  }

  -- The fresh session that ends a request, and its answer.
  unfoldable pub sign_in : Env → User → Service Q → Answer × Service Q
  unfolding session_token
  sign_in env user st =
      let (plain, db) = session_token env user st.db in
      (signed_in plain user, record st { db = db })

  unfoldable pub login : Env → String → String → Service Q → Result AuthError (Answer × Service Q)
  unfolding find_user verify_password forgive sign_in
  login env email password st = do
    user ← found_or bad_login (find_user (env.lower email) st.db)
    raise_if (not (verify_password env.secrets password user.password_hash)) bad_login
    ok (sign_in env user (forgive env st))

  unfoldable pub set_password : Env → ℕ → String → Db Q → Db Q
  unfolding update_first hash_password
  set_password env user_id password db = record db {
    users =
        update_first (is_user user_id)
          (λ u. record u { password_hash = hash_password env.secrets db.drawn password }) db.users;
  }

  -- `delete(AuthToken).where(AuthToken.user_id == user.id, …)`
  unfoldable pub delete_tokens : ℕ → (String → Bool) → Db Q → Db Q
  unfolding keep
  delete_tokens user_id kinds db = record db {
    auth_tokens = keep (λ t. not (t.user_id == user_id && kinds t.kind)) db.auth_tokens;
  }

  unfoldable pub change_password :
      Env → User → String → String → Service Q → Result AuthError (Answer × Service Q)
  unfolding verify_password forgive set_password delete_tokens sign_in hash_password
  change_password env user current new st = do
    raise_if (not (verify_password env.secrets current user.password_hash)) wrong_password
    raise_if (current == new) same_password
    let st₁ = forgive env st in
        let user₁ : User = record user {
          password_hash = hash_password env.secrets st.db.drawn new;
        } in
        ok (
          sign_in env user₁ (record st₁ {
            db =
                delete_tokens user.id (λ kind. kind == "session")
                  (set_password env user.id new st₁.db);
          }))

  -- The code is stored before it is handed to the relay, whose failure changes nothing.
  unfoldable pub request_password_reset :
      Env → String → Service Q → Result AuthError (Answer × Service Q)
  unfolding find_user delete_tokens generate_short_code
  request_password_reset env email st =
      if not env.settings.email_configured
      then err email_not_configured
      else elim (find_user (env.lower email) st.db) [
        | none ↦ ok (accepted, st)
        | some user ↦
            let db₁ = delete_tokens user.id (λ kind. kind == "reset") st.db in
            let (code, hashed) = generate_short_code env.secrets db₁.drawn in
            ok (
              accepted,
              record st {
                db = record db₁ {
                  auth_tokens =
                      db₁.auth_tokens
                      ++ (record {
                        id = env.uuid4 db₁.drawn;
                        user_id = user.id;
                        token_hash = hashed;
                        kind = "reset";
                        label = none;
                        expires_at = some (env.clock.now + env.password_reset_ttl_minutes * minute);
                        last_used_at = none;
                      }
                          ∷ []);
                  drawn = suc db₁.drawn;
                };
                outbox =
                    st.outbox
                    ++ (record { to = user.email; display_name = user.display_name; code = code }
                        ∷ []);
              },
            )
      ]

  unfoldable pub confirm_password_reset :
      Env → String → String → Service Q → Result AuthError (Answer × Service Q)
  unfolding is_reset find forgive set_password delete_tokens sign_in hash_password
  confirm_password_reset env code new st = do
    reset ← found_or bad_reset_code (find (is_reset env code) st.db.auth_tokens)
    raise_if (is_over reset.expires_at env.clock.now) bad_reset_code
    user ← found_or bad_reset_code (find (is_user reset.user_id) st.db.users)
    let st₁ = forgive env st in
        let user₁ : User = record user {
          password_hash = hash_password env.secrets st.db.drawn new;
        } in
        ok (
          sign_in env user₁ (record st₁ {
            db =
                delete_tokens user.id (λ kind. kind == "reset" || kind == "session")
                  (set_password env user.id new st₁.db);
          }))

  unfoldable pub create_api_token :
      Env → User → String → Option ℕ → Service Q → Result AuthError (Answer × Service Q)
  unfolding enforce generate_token
  create_api_token env user label expires_in_days st = do
    map_err limit_reached
        (enforce env.settings env.table env.clock st.db user.household_id api_tokens 1 none none)
    let db = st.db in
        let (plain, hashed) = generate_token env.secrets db.drawn in
        let token : AuthToken = record {
          id = env.uuid4 db.drawn;
          user_id = user.id;
          token_hash = hashed;
          kind = "api";
          label = some (env.strip label);
          expires_at = elim expires_in_days [
            | none ↦ none
            | some days ↦ some (env.clock.now + days * day)
          ];
          last_used_at = none;
        } in
        ok (
          token_created token plain,
          record st {
            db = record db { auth_tokens = db.auth_tokens ++ (token ∷ []); drawn = suc db.drawn };
          },
        )

  unfoldable pub list_api_tokens : User → Service Q → Answer
  unfolding is_api_token keep
  list_api_tokens user st = token_list (keep (is_api_token user) st.db.auth_tokens)

  unfoldable pub revoke_api_token : User → ℕ → Service Q → Result AuthError (Answer × Service Q)
  unfolding is_api_token find erase_first
  revoke_api_token user token_id st = do
    token ←
        found_or no_such_token
          (find (λ t. t.id == token_id && is_api_token user t) st.db.auth_tokens)
    let db = st.db in
        ok (
          no_content,
          record st {
            db = record db { auth_tokens = erase_first (λ t. t.id == token.id) db.auth_tokens };
          },
        )
