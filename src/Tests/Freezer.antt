-- ===== src/Tests/Freezer.antt =====
-- Runs of the freezer.
use meals.Prelude.{ℕ, ◌+◌, ◌≡◌, ◌⊎◌, refl, none, [], ◌∷◌, ok, arith, find}
use meals.Models.{Db}
use meals.Models.Freezer.{FreezerItem}
use meals.Limits.Tiers.{hosted_profile}
use meals.Freezer.{get_item, take_portions, total_portions, take_from_freezer}
use meals.Freezer.Stock.{HoldFood, taking, serve, serve-HoldFood}
use meals.Freezer.Taking.{take_from_freezer_total}
use meals.Tests.Data.{store, hosted, clock, ids, got}

abbrev chilli : FreezerItem
chilli = record {
  id = 90;
  household_id = 1;
  label = "chilli";
  meal_id = none;
  recipe_id = none;
  portions = 3;
  note = none;
  frozen_on = 20;
  created_by = none;
}

abbrev stocked : Db ℕ
stocked = record store { freezer_items = chilli ∷ record chilli { id = 91 } ∷ [] }

take_from_freezer_total_example :
    (db' : Db ℕ) × (take_from_freezer 1 91 2 stocked ≡ ok (1, db'))
    × (total_portions 1 db'.freezer_items + 2 ≡ total_portions 1 stocked.freezer_items)
    × ((◌≡◌ {A = ℕ} 2 1)
        ⊎ (total_portions 2 db'.freezer_items ≡ total_portions 2 stocked.freezer_items))
unfolding get_item find
take_from_freezer_total_example =
    take_from_freezer_total 1 91 2 2 stocked (record chilli { id = 91 }) refl

serve-HoldFood_example :
    HoldFood
      (got stocked (
        serve
          (λ text. text)
          ids
          hosted
          hosted_profile
          clock
          20
          1
          none
          (taking 91 2)
          stocked)).freezer_items
unfolding serve take_from_freezer get_item find take_portions
serve-HoldFood_example =
    serve-HoldFood (λ text. text) ids hosted hosted_profile clock 20 1 none (taking 91 2) stocked
      (got stocked
        (serve (λ text. text) ids hosted hosted_profile clock 20 1 none (taking 91 2) stocked))
      (omega arith) (omega arith, (omega arith, tt)) refl
