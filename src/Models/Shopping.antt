-- ===== src/Models/Shopping.antt =====
-- backend/app/models/shopping.py. A line holds its contributions, as the relationship
-- `sources` with its delete-orphan cascade does. Its stamps `created_at` and `updated_at` are left
-- out.
use meals.Prelude.{ℕ, String, Option, List, Bool}

pub record Supermarket : Type 0 where
  pub id : ℕ
  pub household_id : ℕ
  pub name : String
  pub aisle_order : List String
  pub is_active : Bool

pub data ListStatus : Type 0 where
  active archived : ListStatus

pub record ShoppingList : Type 0 where
  pub id : ℕ
  pub household_id : ℕ
  pub status : ListStatus
  pub archived_at : Option ℕ

pub record ListItemSource (Q : Type 0) : Type 0 where
  pub plan_meal_id : Option ℕ
  pub recipe_id : Option ℕ
  pub quantity : Option Q
  pub client_key : Option ℕ

pub record ListItem (Q : Type 0) : Type 0 where
  pub id : ℕ
  pub list_id : ℕ
  pub ingredient_id : ℕ
  pub unit : Option String
  pub checked : Bool
  pub excluded : Bool
  pub staple_needed : Bool
  pub sources : List (ListItemSource Q)
