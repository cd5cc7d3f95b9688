-- ===== src/Models/Freezer.antt =====
-- backend/app/models/freezer.py. A date is a number of days. The stamps `created_at`
-- and `updated_at` are left out.
use meals.Prelude.{ℕ, String, Option}

pub record FreezerItem : Type 0 where
  pub id : ℕ
  pub household_id : ℕ
  pub label : String
  pub meal_id : Option ℕ
  pub recipe_id : Option ℕ
  pub portions : ℕ
  pub note : Option String
  pub frozen_on : ℕ
  pub created_by : Option ℕ
