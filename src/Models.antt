-- ===== src/Models.antt =====
-- backend/app/models: one record for each table, and the database as the record of its tables.
pub mod Users
pub mod Catalog
pub mod Planning
pub mod Shopping
pub mod Freezer
pub mod Billing
use meals.Prelude.{ℕ, List}
use Users.{Household, User, AuthToken, HouseholdInvite}
use Catalog.{Ingredient, Recipe}
use Planning.{Meal, Plan, PlanMeal, CookedEvent}
use Shopping.{Supermarket, ShoppingList, ListItem}
use Freezer.{FreezerItem}
use Billing.{BillingEvent}

-- The rows of each table in the order of their insertion, which is the order of `created_at`.
-- `drawn` counts the calls that `default=uuid.uuid4` has made.
pub record Db (Q : Type 0) : Type 0 where
  pub households : List Household
  pub users : List User
  pub auth_tokens : List AuthToken
  pub ingredients : List Ingredient
  pub recipes : List (Recipe Q)
  pub meal_rows : List (Meal Q)
  pub plans : List Plan
  pub plan_meals : List PlanMeal
  pub cooked_events : List (CookedEvent Q)
  pub supermarkets : List Supermarket
  pub shopping_lists : List ShoppingList
  pub list_items : List (ListItem Q)
  pub freezer_items : List FreezerItem
  pub household_invites : List HouseholdInvite
  pub billing_events : List BillingEvent
  pub drawn : ℕ
