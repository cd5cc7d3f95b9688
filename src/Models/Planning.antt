-- ===== src/Models/Planning.antt =====
-- backend/app/models/planning.py.
use meals.Prelude.{ℕ, String, Option, List}

pub record MealRecipe (Q : Type 0) : Type 0 where
  pub recipe_id : ℕ
  pub scale : Q

pub record MealIngredient (Q : Type 0) : Type 0 where
  pub ingredient_id : ℕ
  pub quantity : Option Q
  pub unit : Option String

pub record Meal (Q : Type 0) : Type 0 where
  pub id : ℕ
  pub household_id : ℕ
  pub name : String
  pub slot : Option String
  pub times_cooked : ℕ
  pub last_cooked_at : Option ℕ
  pub recipe_links : List (MealRecipe Q)
  pub ingredient_links : List (MealIngredient Q)

pub data PlanStatus : Type 0 where
  active archived : PlanStatus

pub record Plan : Type 0 where
  pub id : ℕ
  pub household_id : ℕ
  pub label : String
  pub starts_on : Option ℕ
  pub status : PlanStatus
  pub archived_at : Option ℕ

pub record PlanMeal : Type 0 where
  pub id : ℕ
  pub plan_id : ℕ
  pub meal_id : ℕ
  pub cooked_at : Option ℕ

pub data Subject : Type 0 where
  meal recipe : Subject

pub record CookedEvent (Q : Type 0) : Type 0 where
  pub household_id : ℕ
  pub subject : Subject
  pub meal_id : Option ℕ
  pub recipe_id : Option ℕ
  pub plan_meal_id : Option ℕ
  pub meal_name : Option String
  pub recipe_title : Option String
  pub scale : Q
  pub cooked_at : ℕ
  pub created_by : Option ℕ
