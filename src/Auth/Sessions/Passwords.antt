-- ===== src/Auth/Sessions/Passwords.antt =====
-- The passwords and resets of backend/app/routers/auth.py.
use Prim.Native.String.{◌++◌ as ◌<>◌}
use meals.Prelude.{
  ℕ, suc, ◌+◌, ◌*◌, ◌<◌, ◌≡◌, refl, ◌∙◌, ap, String, Bool, true, false, ◌&&◌, not, none, some, List,
  [], ◌∷◌, ◌++◌, arith, keep, keep-append, find, find-append, find_of_none, any, any-keep_le, ◌==◌,
  nat_eq, string_eq, nat_beq_iff, ok, is_ok,
}
use meals.Models.{Db}
use meals.Models.Users.{User, AuthToken}
use meals.Accounts.{is_user}
use meals.Auth.RateLimit.{minute}
use meals.Auth.Security.{
  hash_token, hash_password, hash_short_code, generate_token, generate_short_code,
}
use meals.Limits.Enforce.{day}
use meals.Auth.Service.{Env, Service, ResetMail, Answer, signed_in, accepted}
use meals.Auth.Sessions.{
  find_user, session_token, forgive, sign_in, set_password, delete_tokens, change_password,
  request_password_reset, is_reset, is_over, confirm_password_reset,
}
use meals.Auth.Security.Codes.{hash_short_code-generate_short_code}

unfoldable pub is_session_of : ℕ → AuthToken → Bool
is_session_of user_id t = t.user_id == user_id && t.kind == "session"

keep-keep_other : {A : Type 0} (p : A → Bool) (xs : List A) → keep p (keep (λ x. not (p x)) xs) ≡ []
unfolding keep
keep-keep_other p [] = refl
keep-keep_other p (x ∷ xs) = ground (arith, keep-keep_other p xs)

keep-keep_same : {A : Type 0} (p : A → Bool) (xs : List A) → keep p (keep p xs) ≡ keep p xs
unfolding keep
keep-keep_same p [] = refl
keep-keep_same p (x ∷ xs) = ground (arith, keep-keep_same p xs)

append_nil : {A : Type 0} (xs : List A) → xs ++ [] ≡ xs
append_nil [] = refl
append_nil (x ∷ xs) = ap (λ ys. x ∷ ys) (append_nil xs)

module _ {Q : Type 0} where
  -- When a password is changed, the answer brings the only session that the user still has, and all
  -- other tokens, those of the clients among them, are as they were.
  pub sessions-change_password :
      (env : Env) (user : User) (current new : String) (st st' : Service Q) (a : Answer)
      → change_password env user current new st ≡ ok (a, st')
      → (plain : String) × (row : User) × (fresh : AuthToken) × (a ≡ signed_in plain row)
        × (fresh.token_hash ≡ hash_token env.secrets plain)
        × (keep (is_session_of user.id) st'.db.auth_tokens ≡ fresh ∷ [])
        × (keep (λ t. not (is_session_of user.id t)) st'.db.auth_tokens
            ≡ keep (λ t. not (is_session_of user.id t)) st.db.auth_tokens)
  unfolding change_password sign_in session_token generate_token is_session_of forgive delete_tokens
      set_password
  sessions-change_password env user current new st st' a h =
      let p = is_session_of user.id in
      let old = st.db.auth_tokens in
      let plain = (generate_token env.secrets st.db.drawn).0 in
      let fresh : AuthToken = record {
        id = env.uuid4 st.db.drawn;
        user_id = user.id;
        token_hash = hash_token env.secrets plain;
        kind = "session";
        label = none;
        expires_at = some (env.clock.now + env.session_token_ttl_days * day);
        last_used_at = none;
      } in
      let row : User = record user { password_hash = hash_password env.secrets st.db.drawn new } in
      let tokens : st'.db.auth_tokens ≡ keep (λ t. not (p t)) old ++ (fresh ∷ []) =
        ground (arith, h) in
      let is_his : p fresh ≡ true = ground (arith, nat_beq_iff user.id user.id) in
      (
        plain,
        row,
        fresh,
        ground (arith, h),
        refl,
        ap (keep p) tokens
            ∙ keep-append p (keep (λ t. not (p t)) old) (fresh ∷ [])
            ∙ ground (arith, keep-keep_other p old, is_his),
        ap (keep (λ t. not (p t))) tokens
            ∙ keep-append (λ t. not (p t)) (keep (λ t. not (p t)) old) (fresh ∷ [])
            ∙ ground (
              arith,
              keep-keep_same (λ t. not (p t)) old,
              is_his,
              append_nil (keep (λ t. not (p t)) old),
            ),
      )

no_reset :
    (env : Env) (code : String) (hash : String) (old : List AuthToken)
    → hash_short_code env.secrets code ≡ hash
    → any (λ r. r.token_hash == hash) old ≡ false
    → any (λ r. r.token_hash == hash_short_code env.secrets code && r.kind == "reset") old ≡ false
unfolding any
no_reset env code hash [] typed fresh = refl
no_reset env code hash (r ∷ rs) typed fresh = ground (arith, typed, no_reset env code hash rs typed)

-- A token of a list whose hash nobody else has is found by its code.
find_reset :
    (env : Env) (code : String) (hash : String) (p : AuthToken → Bool) (old : List AuthToken)
    (t : AuthToken)
    → hash_short_code env.secrets code ≡ hash
    → any (λ r. r.token_hash == hash) old ≡ false
    → t.token_hash ≡ hash
    → t.kind ≡ "reset"
    → find (is_reset env code) (keep p old ++ (t ∷ [])) ≡ some t
unfolding is_reset find
find_reset env code hash p old t typed fresh hashed kind =
    let test : AuthToken → Bool =
      λ r. r.token_hash == hash_short_code env.secrets code && r.kind == "reset" in
    let absent : find test (keep p old) ≡ none =
      find_of_none test (keep p old)
        (any-keep_le test p old (no_reset env code hash old typed fresh)) in
    find-append test (keep p old) (t ∷ []) absent
    ∙ ground (
      arith,
      typed,
      hashed,
      kind,
      string_eq.same_iff t.token_hash (hash_short_code env.secrets code),
      string_eq.same_iff t.kind "reset",
    )

module _ {Q : Type 0} where
  -- A code that is known, of a user who is there, is accepted until it is over.
  confirmed :
      (later : Env) (typed new : String) (st : Service Q) (reset : AuthToken) (user : User)
      → find (is_reset later typed) st.db.auth_tokens ≡ some reset
      → find (is_user reset.user_id) st.db.users ≡ some user
      → is_over reset.expires_at later.clock.now ≡ false
      → is_ok (confirm_password_reset later typed new st) ≡ true
  unfolding confirm_password_reset
  confirmed later typed new st reset user known there early = ground (arith, known, there, early)

  -- When mail is configured, an address has an account, upper-casing works character by character
  -- and keeps the hyphen, which is no letter or digit, and no token has the hash of the code that is
  -- drawn, then a request to reset the password is accepted and mails that code to the account; and
  -- the code, typed in any case before it expires, is accepted on a later request with the same
  -- secrets.
  pub reset_round_trip :
      (env later : Env) (email typed new : String) (st : Service Q) (user : User)
      → ((x y : String) → env.secrets.upper (x <> y) ≡ env.secrets.upper x <> env.secrets.upper y)
      → env.secrets.upper "-" ≡ "-"
      → env.secrets.isalnum "-" ≡ false
      → env.settings.email_configured ≡ true
      → later.secrets ≡ env.secrets
      → later.clock.now < env.clock.now + env.password_reset_ttl_minutes * minute
      → find_user (env.lower email) st.db ≡ some user
      → find (is_user user.id) st.db.users ≡ some user
      → any (λ t. t.token_hash == (generate_short_code env.secrets st.db.drawn).1) st.db.auth_tokens
        ≡ false
      → env.secrets.upper typed ≡ env.secrets.upper (generate_short_code env.secrets st.db.drawn).0
      → (mail : ResetMail) × (st₁ : Service Q) × (request_password_reset env email st
          ≡ ok (accepted, st₁))
        × (st₁.outbox ≡ st.outbox ++ (mail ∷ []))
        × (mail.to ≡ user.email)
        × (mail.code ≡ (generate_short_code env.secrets st.db.drawn).0)
        × (is_ok (confirm_password_reset later typed new st₁) ≡ true)
  unfolding request_password_reset delete_tokens find_user
  reset_round_trip env later email typed new st user up hyphen separator on same soon found self
        fresh as_shown =
      let code = generate_short_code env.secrets st.db.drawn in
      let p : AuthToken → Bool = λ t. not (t.user_id == user.id && t.kind == "reset") in
      let reset : AuthToken = record {
        id = env.uuid4 st.db.drawn;
        user_id = user.id;
        token_hash = code.1;
        kind = "reset";
        label = none;
        expires_at = some (env.clock.now + env.password_reset_ttl_minutes * minute);
        last_used_at = none;
      } in
      let mail : ResetMail = record {
        to = user.email;
        display_name = user.display_name;
        code = code.0;
      } in
      let db₁ : Db Q = record st.db {
        auth_tokens = keep p st.db.auth_tokens ++ (reset ∷ []);
        drawn = suc st.db.drawn;
      } in
      let st₁ : Service Q = record st { db = db₁; outbox = st.outbox ++ (mail ∷ []) } in
      (
        mail,
        st₁,
        ground (arith, on, found),
        refl,
        refl,
        refl,
        confirmed later typed new st₁ reset user
            (find_reset later typed code.1 p st.db.auth_tokens reset
              (ap (λ s. hash_short_code s typed) same
                ∙ hash_short_code-generate_short_code env.secrets up hyphen separator st.db.drawn
                    typed as_shown)
              fresh refl refl)
            self (ground (arith, soon)),
      )
