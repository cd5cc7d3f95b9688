-- ===== src/Auth/Households.antt =====
-- backend/app/routers/auth.py: members, invitations and the lead of a household.
pub mod SingleUse
use meals.Prelude.{
  map_err, found_or, ℕ, suc, ◌+◌, ◌*◌, String, Bool, true, false, ◌&&◌, ◌||◌, not, leb, Option,
  none, some, List, [], ◌∷◌, ◌++◌, keep, find, map, update_first, erase_first, ◌==◌, nat_eq,
  string_eq, option_eq, if◌then◌else◌, Result, ok, err, ◌>>=◌, ◌>>◌, raise_if,
}
use meals.Models.{Db}
use meals.Models.Users.{Household, User, HouseholdInvite}
use meals.Entitlements.{is_none}
use meals.Limits.Tiers.{members}
use meals.Limits.Enforce.{day, enforce}
use meals.Limits.Instance.{admit_registration}
use meals.Accounts.{
  is_user, is_household, is_member, household_user_count, household_has_content,
  leads_alongside_others, move_user_to_household, set_lead, delete_user, is_led_by,
}
use meals.Auth.Security.{verify_password, hash_password, generate_short_code, hash_short_code}
use meals.Auth.Service.{
  Env, Service, RegisterIn, HouseholdMemberOut, HouseholdOut, Answer, user_out, account_deleted,
  household_out, member_removed, invite_created, invite_list, no_content, AuthError, bad_invite,
  registration_closed, email_taken, instance_full, limit_reached, wrong_password, household_gone,
  lead_outside, no_such_member, only_the_lead, hand_over_first, only_member, same_household,
  needs_force, no_such_invite, already_redeemed, not_moved,
}
use meals.Auth.Guests.{new_household, find_invite, accept_invite, enforce_members}

-- `admitted_by.get(member_id)`: the last redeemed invitation of a member says who admitted them.
unfoldable pub admission : ℕ → ℕ → List HouseholdInvite → Option HouseholdInvite
admission hh member_id [] = none
admission hh member_id (i ∷ is) =
    let rest = admission hh member_id is in
    elim rest [
      | some later ↦ some later
      | none ↦
          if i.household_id == hh && i.accepted_by_user_id == some member_id then some i else none
    ]

unfoldable pub member_out : Household → List HouseholdInvite → User → HouseholdMemberOut
unfolding admission
member_out h invites u = record {
  id = u.id;
  display_name = u.display_name;
  email = u.email;
  is_lead = some u.id == h.lead_user_id;
  invited_by_user_id = elim (admission h.id u.id invites) [
    | none ↦ none
    | some i ↦ i.created_by_user_id
  ];
}

-- The changes of `PATCH /household`.
pub record HouseholdUpdateIn : Type 0 where
  pub name : Option String
  pub lead_user_id : Option ℕ

unfoldable pub rename : Env → Option String → String → String
rename env none old = old
rename env (some name) old = env.strip name

module _ {Q : Type 0} where
  unfoldable pub lead_of : Household → Db Q → Option User
  unfolding find
  lead_of h db = elim h.lead_user_id [ none ↦ none | some lead ↦ find (is_user lead) db.users ]

  unfoldable pub refuse_others : Option Household → Db Q → AuthError
  unfolding lead_of
  refuse_others none db = only_the_lead none
  refuse_others (some h) db = elim (lead_of h db) [
    | none ↦ only_the_lead none
    | some lead ↦ only_the_lead (some lead.display_name)
  ]

  -- `_require_lead`
  unfoldable pub require_lead : User → Db Q → Result AuthError Household
  unfolding find refuse_others
  require_lead user db =
      let household = find (is_household user.household_id) db.households in
      elim household [
        | none ↦ err (refuse_others none db)
        | some h ↦ if h.lead_user_id == some user.id then ok h else err (refuse_others (some h) db)
      ]

  -- `_household_out`
  unfoldable pub show_household : Household → Db Q → HouseholdOut
  unfolding keep member_out
  show_household h db = record {
    id = h.id;
    name = h.name;
    lead_user_id = h.lead_user_id;
    members = map (member_out h db.household_invites) (keep (is_member h.id) db.users);
  }

  unfoldable pub get_household : User → Service Q → Result AuthError (Answer × Service Q)
  unfolding find show_household
  get_household user st = do
    h ← found_or household_gone (find (is_household user.household_id) st.db.households)
    ok (household_out (show_household h st.db), st)

  -- The lead that a request names, when it is not the lead already: it must be a member.
  unfoldable pub new_lead : Household → Option ℕ → Db Q → Result AuthError (Option ℕ)
  unfolding find
  new_lead h none db = ok h.lead_user_id
  new_lead h (some lead) db =
      if h.lead_user_id == some lead
      then ok h.lead_user_id
      else elim (find (is_user lead) db.users) [
        | none ↦ err lead_outside
        | some successor ↦
            if successor.household_id == h.id then ok (some successor.id) else err lead_outside
      ]

  unfoldable pub update_household :
      Env → User → HouseholdUpdateIn → Service Q → Result AuthError (Answer × Service Q)
  unfolding require_lead new_lead rename update_first show_household
  update_household env user payload st = do
    h ← require_lead user st.db
    lead ← new_lead h payload.lead_user_id st.db
    let changed : Household = record h {
      lead_user_id = lead;
      name = rename env payload.name h.name;
    } in
        let db = st.db in
        let db₁ : Db Q = record db {
          households = update_first (is_household h.id) (λ _. changed) db.households;
        } in
        ok (household_out (show_household changed db₁), record st { db = db₁ })

  -- Whether the caller may remove the member, or leave.
  unfoldable pub may_remove : User → User → Db Q → Result AuthError (Unit {0})
  unfolding require_lead leads_alongside_others household_user_count
  may_remove user target db =
      if not (target.id == user.id)
      then require_lead user db >>= (λ _. ok tt)
      else if leads_alongside_others user db
      then err hand_over_first
      else if leb (household_user_count user.household_id db) 1
      then err only_member
      else ok tt

  unfoldable pub remove_member : Env → User → ℕ → Service Q → Result AuthError (Answer × Service Q)
  unfolding find may_remove new_household move_user_to_household
  remove_member env user user_id st = do
    target ← found_or no_such_member (find (is_user user_id) st.db.users)
    raise_if (not (target.household_id == user.household_id)) no_such_member
    may_remove user target st.db
    let db = st.db in
        let home = new_household env (env.uuid4 db.drawn) "Home" (some target.id) in
        let db₁ : Db Q = record db {
          households = db.households ++ (home ∷ []);
          drawn = suc db.drawn;
        } in
        do
          (_, db₂) ← map_err not_moved (move_user_to_household target home.id db₁)
          ok (member_removed target.id (target.id == user.id), record st { db = db₂ })

  unfoldable pub create_invite : Env → User → ℕ → Service Q → Result AuthError (Answer × Service Q)
  unfolding require_lead enforce_members generate_short_code
  create_invite env user expires_in_days st = do
    _ ← require_lead user st.db
    enforce_members env user.household_id st.db
    let db = st.db in
        let (code, hashed) = generate_short_code env.secrets db.drawn in
        let invite : HouseholdInvite = record {
          id = env.uuid4 db.drawn;
          household_id = user.household_id;
          created_by_user_id = some user.id;
          code_hash = hashed;
          expires_at = env.clock.now + expires_in_days * day;
          accepted_at = none;
          accepted_by_user_id = none;
        } in
        ok (
          invite_created invite code,
          record st {
            db = record db {
              household_invites = db.household_invites ++ (invite ∷ []);
              drawn = suc db.drawn;
            };
          },
        )

  unfoldable pub list_invites : User → Service Q → Answer
  unfolding keep
  list_invites user st =
      invite_list (keep (λ i. i.household_id == user.household_id) st.db.household_invites)

  -- `alone and not payload.force and await household_has_content(db, origin_id)`
  unfoldable pub must_force : User → Bool → Db Q → Bool
  unfolding household_user_count household_has_content
  must_force user force db =
      leb (household_user_count user.household_id db) 1
      && not force
      && household_has_content user.household_id db

  unfoldable pub redeem_invite :
      Env → User → String → Bool → Service Q → Result AuthError (Answer × Service Q)
  unfolding find_invite leads_alongside_others must_force enforce_members accept_invite
      move_user_to_household
  redeem_invite env user code force st = do
    invite ← find_invite env code st.db
    raise_if (invite.household_id == user.household_id) same_household
    raise_if (leads_alongside_others user st.db) hand_over_first
    raise_if (must_force user force st.db) needs_force
    enforce_members env invite.household_id st.db
    (_, db) ←
        map_err not_moved
          (move_user_to_household user invite.household_id (accept_invite env invite user.id st.db))
    ok (user_out (record user { household_id = invite.household_id }), record st { db = db })

  unfoldable pub revoke_invite : User → ℕ → Service Q → Result AuthError (Answer × Service Q)
  unfolding require_lead find erase_first
  revoke_invite user invite_id st = do
    _ ← require_lead user st.db
    invite ← found_or no_such_invite (
        find (λ i. i.id == invite_id && i.household_id == user.household_id)
          st.db.household_invites)
    raise_if (not (is_none invite.accepted_at)) already_redeemed
    let db = st.db in
        ok (
          no_content,
          record st {
            db = record db {
              household_invites = erase_first (λ i. i.id == invite.id) db.household_invites;
            };
          },
        )
