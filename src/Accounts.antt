-- ===== src/Accounts.antt =====
-- backend/app/services/accounts.py: deleting accounts, and moving between households.
pub mod Tables
pub mod Members
pub mod Leads
pub mod Deleted
pub mod Succession
pub mod HandingOver
pub mod Erased
use meals.Prelude.{
  ℕ, Bool, true, false, ◌&&◌, ◌||◌, not, ltb, leb, Option, none, some, List, length, keep, find,
  any, update_where, update_first, ◌==◌, nat_eq, option_eq, if◌then◌else◌, Result, ok, err,
}
use meals.Models.{Db}
use meals.Models.Users.{Household, User}
use meals.Models.Catalog
use meals.Models.Planning
use meals.Models.Shopping
use Tables.{
  delete_cooked_events, delete_freezer_items, delete_shopping_lists, delete_plans, delete_meals,
  delete_recipes, delete_ingredients, delete_supermarkets, delete_invites, delete_users,
  delete_household_row,
}

-- The two `ValueError`s of `move_user_to_household`.
pub data MoveError : Type 0 where
  already_there lead_not_handed_over : MoveError

abbrev pub is_user : ℕ → User → Bool
is_user id u = u.id == id

abbrev pub is_household : ℕ → Household → Bool
is_household id h = h.id == id

abbrev pub is_member : ℕ → User → Bool
is_member household_id u = u.household_id == household_id

-- `User.household_id == household_id, User.id != excluding`
abbrev pub is_other_member : ℕ → ℕ → User → Bool
is_other_member household_id excluding u = u.household_id == household_id && not (u.id == excluding)

module _ {Q : Type 0} where
  unfoldable pub household_user_count : ℕ → Db Q → ℕ
  unfolding keep
  household_user_count household_id db = length (keep (is_member household_id) db.users)

  unfoldable pub next_lead : ℕ → ℕ → Db Q → Option ℕ
  unfolding find
  next_lead household_id excluding db =
      elim (find (is_other_member household_id excluding) db.users) [
        | none ↦ none
        | some u ↦ some u.id
      ]

  unfoldable pub household_has_content : ℕ → Db Q → Bool
  unfolding any
  household_has_content hh db =
      any (λ r. r.household_id == hh) db.recipes
      || any (λ m. m.household_id == hh) db.meal_rows
      || any (λ p. p.household_id == hh) db.plans
      || any (λ l. l.household_id == hh) db.shopping_lists
      || any (λ i. i.household_id == hh) db.ingredients
      || any (λ s. s.household_id == hh) db.supermarkets
      || any (λ e. e.household_id == hh) db.cooked_events
      || any (λ i. i.household_id == hh) db.freezer_items

  unfoldable pub leads_alongside_others : User → Db Q → Bool
  unfolding find household_user_count
  leads_alongside_others user db = elim (find (is_household user.household_id) db.households) [
    | none ↦ false
    | some h ↦
        if h.lead_user_id == some user.id
        then ltb 1 (household_user_count user.household_id db)
        else false
  ]

  unfoldable pub set_lead : ℕ → Option ℕ → Db Q → Db Q
  unfolding update_first
  set_lead household_id lead db = record db {
    households =
        update_first (is_household household_id) (λ h. record h { lead_user_id = lead })
          db.households;
  }

  unfoldable pub delete_household_data : ℕ → Db Q → Db Q
  unfolding set_lead delete_cooked_events delete_freezer_items delete_shopping_lists delete_plans
      delete_meals delete_recipes delete_ingredients delete_supermarkets delete_invites delete_users
      delete_household_row
  delete_household_data hh db =
      let without_history = delete_freezer_items hh (delete_cooked_events hh db) in
      let without_plans = delete_plans hh (delete_shopping_lists hh without_history) in
      let without_food =
        delete_ingredients hh (delete_recipes hh (delete_meals hh without_plans)) in
      let without_invites = delete_invites hh (delete_supermarkets hh without_food) in
      let without_users = delete_users (is_member hh) (set_lead hh none without_invites) in
      delete_household_row hh without_users

  unfoldable pub set_household_id : ℕ → ℕ → Db Q → Db Q
  unfolding update_first
  set_household_id user_id target db = record db {
    users = update_first (is_user user_id) (λ u. record u { household_id = target }) db.users;
  }

  -- Whether the household is there and led by the user.
  unfoldable pub is_led_by : ℕ → ℕ → Db Q → Bool
  unfolding find
  is_led_by household_id user_id db = elim (find (is_household household_id) db.households) [
    | none ↦ false
    | some h ↦ h.lead_user_id == some user_id
  ]

  -- The result says whether the household that was left has been deleted.
  unfoldable pub move_user_to_household : User → ℕ → Db Q → Result MoveError (Bool × Db Q)
  unfolding next_lead is_led_by set_household_id delete_household_data
  move_user_to_household user target db =
      if user.household_id == target
      then err already_there
      else elim (next_lead user.household_id user.id db) [
        | none ↦
            ok (true, delete_household_data user.household_id (set_household_id user.id target db))
        | some _ ↦
            if is_led_by user.household_id user.id db
            then err lead_not_handed_over
            else ok (false, set_household_id user.id target db)
      ]

  -- `delete_user`, where others stay: a lead hands over to the longest-standing other member.
  unfoldable pub hand_over : User → Db Q → Db Q
  unfolding is_led_by next_lead set_lead
  hand_over user db =
      if is_led_by user.household_id user.id db
      then set_lead user.household_id (next_lead user.household_id user.id db) db
      else db

  unfoldable pub delete_user : User → Db Q → Bool × Db Q
  unfolding household_user_count delete_household_data hand_over delete_users
  delete_user user db =
      if leb (household_user_count user.household_id db) 1
      then (true, delete_household_data user.household_id db)
      else (false, delete_users (is_user user.id) (hand_over user db))
