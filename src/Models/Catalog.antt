-- ===== src/Models/Catalog.antt =====
-- backend/app/models/catalog.py. `Q` is the type of the amounts, floats in the source. The instant
-- `created_at`, which is written once and read by no operation here, is left out.
use meals.Prelude.{ℕ, String, Option, List, Bool}

pub record Ingredient : Type 0 where
  pub id : ℕ
  pub household_id : ℕ
  pub name : String
  pub canonical_name : Option String
  pub aisle : String
  pub is_staple : Bool
  pub value_tier : String
  pub value_note : Option String

pub record RecipeIngredient (Q : Type 0) : Type 0 where
  pub ingredient_id : ℕ
  pub quantity : Option Q
  pub unit : Option String
  pub raw_text : Option String

pub record Recipe (Q : Type 0) : Type 0 where
  pub id : ℕ
  pub household_id : ℕ
  pub title : String
  pub source_url : Option String
  pub servings : Option ℕ
  pub prep_minutes : Option ℕ
  pub cook_minutes : Option ℕ
  pub image_url : Option String
  pub instructions : Option String
  pub tags : List String
  pub parse_source : String
  pub edited : Bool
  pub times_cooked : ℕ
  pub last_cooked_at : Option ℕ
  pub created_by : Option ℕ
  pub updated_at : ℕ
  pub ingredient_links : List (RecipeIngredient Q)
