-- ===== src/Auth/Guests.antt =====
-- backend/app/routers/auth.py: registration, and the deletion of an account.
pub mod Once
use meals.Prelude.{
  map_err, found_or, ℕ, suc, ◌+◌, ◌*◌, String, Bool, true, false, ◌&&◌, ◌||◌, not, leb, Option,
  none, some, List, [], ◌∷◌, ◌++◌, keep, find, map, update_first, erase_first, ◌==◌, nat_eq,
  string_eq, option_eq, if◌then◌else◌, Result, ok, err, ◌>>=◌, ◌>>◌, raise_if,
}
use meals.Models.{Db}
use meals.Models.Users.{Household, User, HouseholdInvite}
use meals.Entitlements.{is_none}
use meals.Limits.Tiers.{members}
use meals.Limits.Enforce.{day, enforce}
use meals.Limits.Instance.{admit_registration}
use meals.Accounts.{
  is_user, is_household, is_member, household_user_count, household_has_content,
  leads_alongside_others, move_user_to_household, set_lead, delete_user, is_led_by,
}
use meals.Auth.Security.{verify_password, hash_password, generate_short_code, hash_short_code}
use meals.Auth.Service.{
  Env, Service, RegisterIn, HouseholdMemberOut, HouseholdOut, Answer, user_out, account_deleted,
  household_out, member_removed, invite_created, invite_list, no_content, AuthError, bad_invite,
  registration_closed, email_taken, instance_full, limit_reached, wrong_password, household_gone,
  lead_outside, no_such_member, only_the_lead, hand_over_first, only_member, same_household,
  needs_force, no_such_invite, already_redeemed, not_moved,
}
use meals.Auth.Sessions.{find_user, forgive, sign_in}

-- A household with the defaults of its columns. Naming it is the caller's.
unfoldable pub new_household : Env → ℕ → String → Option ℕ → Household
new_household env id name lead = record {
  id = id;
  name = name;
  lead_user_id = lead;
  tier = env.settings.default_household_tier;
  price_pence = none;
  price_currency = none;
  price_set_at = none;
  ingest_period_started_at = none;
  ingests_used = 0;
  paid_until = none;
  entitlement_source = none;
  billing_customer_id = none;
  entitlement_note = none;
  expiry_warned_at = none;
  lapse_notified_at = none;
}

-- `payload.invite_code`, where an empty text counts as no code.
abbrev pub code_given : Option String → Option String
code_given none = none
code_given (some code) = if code == "" then none else some code

-- `payload.household_name or "Home"`
abbrev pub name_or_home : Option String → String
name_or_home none = "Home"
name_or_home (some name) = if name == "" then "Home" else name

unfoldable pub new_user : Env → ℕ → ℕ → RegisterIn → User
unfolding hash_password
new_user env draw household_id payload = record {
  id = env.uuid4 draw;
  household_id = household_id;
  email = env.lower payload.email;
  password_hash = hash_password env.secrets draw payload.password;
  display_name = env.strip payload.display_name;
}

module _ {Q : Type 0} where
  -- `_redeem_invite`, which only reads.
  unfoldable pub find_invite : Env → String → Db Q → Result AuthError HouseholdInvite
  unfolding find hash_short_code
  find_invite env code db = do
    invite ←
        found_or bad_invite
          (find (λ i. i.code_hash == hash_short_code env.secrets code) db.household_invites)
    raise_if (not (is_none invite.accepted_at) || leb invite.expires_at env.clock.now) bad_invite
    ok invite

  -- `invite.accepted_at = now; invite.accepted_by_user_id = user.id`
  unfoldable pub accept_invite : Env → HouseholdInvite → ℕ → Db Q → Db Q
  unfolding update_first
  accept_invite env invite user_id db = record db {
    household_invites =
        update_first (λ i. i.id == invite.id)
          (λ i. record i { accepted_at = some env.clock.now; accepted_by_user_id = some user_id })
          db.household_invites;
  }

  -- The writes of `register`. The unique index on the address has the last word: what it refuses
  -- is rolled back.
  unfoldable pub write_registration :
      Env → RegisterIn → Option HouseholdInvite → Service Q → Result AuthError (Answer × Service Q)
  unfolding find_user new_user new_household accept_invite sign_in
  write_registration env payload invited st =
      let db = st.db in
      elim (find_user (env.lower payload.email) db) [
        | some _ ↦ err email_taken
        | none ↦ elim invited [
          | some invite ↦
              let user = new_user env db.drawn invite.household_id payload in
              let joined : Db Q = record db {
                users = db.users ++ (user ∷ []);
                drawn = suc db.drawn;
              } in
              ok (sign_in env user (record st { db = accept_invite env invite user.id joined }))
          | none ↦
              let id = env.uuid4 db.drawn in
              let user = new_user env (suc db.drawn) id payload in
              let home =
                new_household env id (env.strip (name_or_home payload.household_name))
                  (some user.id) in
              ok (
                sign_in env user (record st {
                  db = record db {
                    households = db.households ++ (home ∷ []);
                    users = db.users ++ (user ∷ []);
                    drawn = suc (suc db.drawn);
                  };
                }))
        ]
      ]

  -- The invitation that a registration brings, if it brings a code.
  unfoldable pub invitation : Env → Option String → Db Q → Result AuthError (Option HouseholdInvite)
  unfolding find_invite
  invitation env none db = ok none
  invitation env (some code) db = do invite ← find_invite env code db; ok (some invite)

  unfoldable pub enforce_members : Env → ℕ → Db Q → Result AuthError (Unit {0})
  unfolding enforce
  enforce_members env household_id db =
      map_err limit_reached
        (enforce env.settings env.table env.clock db household_id members 1 none none)

  unfoldable pub enforce_invited : Env → Option HouseholdInvite → Db Q → Result AuthError (Unit {0})
  unfolding enforce_members
  enforce_invited env none db = ok tt
  enforce_invited env (some invite) db = enforce_members env invite.household_id db

  unfoldable pub register : Env → RegisterIn → Service Q → Result AuthError (Answer × Service Q)
  unfolding invitation find_user admit_registration enforce_invited write_registration
  register env payload st = do
    invited ← invitation env (code_given payload.invite_code) st.db
    raise_if (is_none invited && not env.registration_enabled) registration_closed
    raise_if (not (is_none (find_user (env.lower payload.email) st.db))) email_taken
    map_err instance_full (admit_registration env.settings st.db (not (is_none invited)))
    enforce_invited env invited st.db
    write_registration env payload invited st

  unfoldable pub delete_account :
      Env → User → String → Service Q → Result AuthError (Answer × Service Q)
  unfolding verify_password forgive delete_user
  delete_account env user password st = do
    raise_if (not (verify_password env.secrets password user.password_hash)) wrong_password
    let st₁ = forgive env st in
        let (household_deleted, db) = delete_user user st₁.db in
        ok (account_deleted household_deleted, record st₁ { db = db })
