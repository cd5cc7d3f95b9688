-- ===== src/Tests/Auth.antt =====
-- Runs of the requests of accounts.
use Prim.Native.Char.{code}
use meals.Prelude.{
  ℕ, ◌≤◌, ◌≡◌, ◌&&◌, refl, subst, inl, String, true, false, not, none, some, [], ◌∷◌, arith,
  nat_beq, ◌==◌, nat_eq, option_eq, string_eq, any, keep, find, is_ok, ok, err, if◌then◌else◌,
  concat,
}
use meals.Models.{Db}
use meals.Models.Users.{User, AuthToken, HouseholdInvite}
use meals.Limits.Tiers.{hosted_profile}
use meals.Accounts.{
  is_user, is_household, is_member, household_user_count, household_has_content,
  delete_household_data, delete_user,
}
use meals.Accounts.Members.{distinct_ids, led_in}
use meals.Accounts.Succession.{IsSound}
use meals.Accounts.Erased.{delete_household_data-empty, delete_user-erased}
use meals.Auth.RateLimit.Bound.{within, failures, failures_bounded}
use meals.Auth.Security.{Secrets, hash_token, hash_short_code, generate_short_code}
use meals.Auth.Security.Codes.{hash_short_code-generate_short_code}
use meals.Auth.Service.{
  Env, Service, ResetMail, RegisterIn, Answer, signed_in, accepted, bad_invite,
}
use meals.Auth.Sessions.{find_user, change_password, request_password_reset, confirm_password_reset}
use meals.Auth.Sessions.Passwords.{is_session_of, sessions-change_password, reset_round_trip}
use meals.Auth.Guests.{register, find_invite}
use meals.Auth.Households.{redeem_invite}
use meals.Auth.Households.SingleUse.{redeemed_once}
use meals.Auth.Requests.{serve, from_user, delete_member}
use meals.Auth.Kept.Served.{serve-IsSound}
use meals.Tests.Data.{store, hosted, clock, ids, home, ada, got}

-- Stand-ins for the cryptography: nothing is hidden.
abbrev plain_secrets : Secrets
plain_secrets = record {
  hashpw = λ _ password. concat "h:" password;
  checkpw = λ password hashed. some (hashed == concat "h:" password);
  sha256 = λ t. t;
  token_urlsafe = λ n. if nat_beq n 0 then "zero" else "more";
  choice = λ n _. if nat_beq n 3 then "C" else "A";
  upper = λ t. t;
  isalnum = λ c. not (nat_beq (code c) 45);
}

abbrev env : Env
env = record {
  settings = hosted;
  table = hosted_profile;
  clock = clock;
  monotonic = 70;
  registration_enabled = true;
  session_token_ttl_days = 30;
  password_reset_ttl_minutes = 30;
  auth_rate_limit_per_minute = 10;
  uuid4 = ids;
  secrets = plain_secrets;
  lower = λ t. t;
  strip = λ t. t;
}

abbrev bob : User
bob = record {
  id = 11;
  household_id = 1;
  email = "bob@example.org";
  password_hash = "h:secret";
  display_name = "Bob";
}

abbrev cleo : User
cleo = record bob { id = 12; household_id = 2; email = "cleo@example.org" }

abbrev token : ℕ → String → String → AuthToken
token user_id hashed kind = record {
  id = user_id;
  user_id = user_id;
  token_hash = hashed;
  kind = kind;
  label = none;
  expires_at = none;
  last_used_at = none;
}

abbrev letter : HouseholdInvite
letter = record {
  id = 5;
  household_id = 1;
  created_by_user_id = some 10;
  code_hash = "ABCD";
  expires_at = 900;
  accepted_at = none;
  accepted_by_user_id = none;
}

abbrev town : Db ℕ
town = record store {
  households = home ∷ record home { id = 2; lead_user_id = some 12 } ∷ [];
  users = ada ∷ bob ∷ cleo ∷ [];
  auth_tokens = token 10 "a" "session" ∷ token 11 "b" "session" ∷ token 11 "c" "api" ∷ [];
  household_invites = letter ∷ [];
}

abbrev service : Service ℕ
service = record { db = town; window = []; outbox = [] }

town-IsSound : IsSound town
unfolding distinct_ids led_in
town-IsSound = record { unique = refl; led = λ k. ground arith }

ids_fresh : (n : ℕ) → 0 ≤ n → any (is_user (ids n)) town.users ≡ false
unfolding any
ids_fresh n le = ground arith

serve-IsSound_example : IsSound (serve env (some "a") (from_user (delete_member 11)) service).1.db
serve-IsSound_example =
    serve-IsSound env (some "a") (from_user (delete_member 11)) service town-IsSound ids_fresh

failures_bounded_example :
    within 0 (failures 2 [] [] ((1, false) ∷ (2, true) ∷ (3, false) ∷ (4, false) ∷ [])) ≤ 2
failures_bounded_example =
    failures_bounded 1 0 0 ((1, false) ∷ (2, true) ∷ (3, false) ∷ (4, false) ∷ [])
      (omega arith, (omega arith, (omega arith, (omega arith, tt))))

hash_short_code-generate_short_code_example :
    hash_short_code plain_secrets "AAAA-AAAA-CAAA" ≡ (generate_short_code plain_secrets 0).1
unfolding generate_short_code hash_short_code
hash_short_code-generate_short_code_example =
    hash_short_code-generate_short_code plain_secrets (λ _ _. refl) refl refl 0 "AAAA-AAAA-CAAA"
      refl

delete_household_data-empty_example :
    (find (is_household 1) (delete_household_data 1 town).households ≡ none)
    × (household_user_count 1 (delete_household_data 1 town) ≡ 0)
    × (household_has_content 1 (delete_household_data 1 town) ≡ false)
    × (any
          (λ i. any (λ l. l.id == i.list_id && l.household_id == 1) town.shopping_lists)
          (delete_household_data 1 town).list_items
        ≡ false)
    × (any
          (λ m. any (λ p. p.id == m.plan_id && p.household_id == 1) town.plans)
          (delete_household_data 1 town).plan_meals
        ≡ false)
    × (any
          (λ t. any (λ u. u.id == t.user_id && is_member 1 u) town.users)
          (delete_household_data 1 town).auth_tokens
        ≡ false)
    × (any (λ i. i.household_id == 1) (delete_household_data 1 town).household_invites ≡ false)
    × (any (λ e. e.household_id == some 1) (delete_household_data 1 town).billing_events ≡ false)
delete_household_data-empty_example = delete_household_data-empty 1 town

delete_user-erased_example :
    (any (is_user 11) (delete_user bob town).1.users ≡ false)
    × (any (λ t. t.user_id == 11) (delete_user bob town).1.auth_tokens ≡ false)
unfolding distinct_ids find
delete_user-erased_example = delete_user-erased bob town refl refl

abbrev changed : Answer × Service ℕ
changed = got (accepted, service) (change_password env bob "secret" "public" service)

sessions-change_password_example :
    (plain : String) × (row : User) × (fresh : AuthToken) × (changed.0 ≡ signed_in plain row)
    × (fresh.token_hash ≡ hash_token plain_secrets plain)
    × (keep (is_session_of 11) changed.1.db.auth_tokens ≡ fresh ∷ [])
    × (keep (λ t. not (is_session_of 11 t)) changed.1.db.auth_tokens
        ≡ keep (λ t. not (is_session_of 11 t)) town.auth_tokens)
unfolding change_password
sessions-change_password_example =
    sessions-change_password env bob "secret" "public" service changed.1 changed.0 refl

abbrev open_env : Env
open_env = record env { settings = record hosted { limits_profile = "unlimited" } }

abbrev moved : Answer × Service ℕ
moved = got (accepted, service) (redeem_invite open_env cleo "ABCD" true service)

abbrev newcomer : RegisterIn
newcomer = record {
  email = "dan@example.org";
  password = "password";
  display_name = "Dan";
  invite_code = some "ABCD";
  household_name = none;
}

the_letter :
    (i : HouseholdInvite)
    → find_invite open_env "ABCD" town ≡ ok i
    → find (λ j. j.id == i.id) town.household_invites ≡ some i
unfolding find_invite find
the_letter i h =
    let same : letter ≡ i = ground (arith, h) in
    subst (λ (j : HouseholdInvite). find (λ k. k.id == j.id) (letter ∷ []) ≡ some j) same refl

redeemed_once_example :
    (redeem_invite env ada "ABCD" true moved.1 ≡ err bad_invite)
    × (register env newcomer moved.1 ≡ err bad_invite)
unfolding redeem_invite meals.Limits.Settings.anything_configured
redeemed_once_example =
    redeemed_once open_env "ABCD" service moved.1 moved.0 cleo ada true true newcomer newcomer env
      the_letter (inl refl) refl refl

reset_round_trip_example :
    (mail : ResetMail) × (st₁ : Service ℕ) × (request_password_reset env "bob@example.org" service
      ≡ ok (accepted, st₁))
    × (st₁.outbox ≡ mail ∷ [])
    × (mail.to ≡ "bob@example.org")
    × (mail.code ≡ (generate_short_code plain_secrets 0).0)
    × (is_ok (confirm_password_reset env "AAAA-AAAA-CAAA" "public" st₁) ≡ true)
unfolding find_user find any generate_short_code
reset_round_trip_example =
    reset_round_trip env env "bob@example.org" "AAAA-AAAA-CAAA" "public" service bob (λ _ _. refl)
      refl refl refl refl (omega arith) refl refl refl refl
