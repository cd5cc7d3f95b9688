-- ===== src/Tests/Cooking.antt =====
-- Runs of the cooked history.
use mathlib.Core.Option
use meals.Prelude.{ℕ, ◌≡◌, refl, some, map, [], ◌∷◌, keep, any, find, update_where}
use meals.Models.{Db}
use meals.Models.Planning.{PlanMeal}
use meals.Cooking.{
  latest, meal_events, recipe_events, restat_meal, restat_recipe, refresh_all, refresh_recipe,
  flush_recipe, refresh_meal_stats, refresh_recipe_stats, cooking_events, meal_event, recipe_event,
  write_cooked, record_cooked, undo_cooked,
}
use meals.Cooking.Counters.{Agrees, record_cooked-Agrees, undo_cooked-Agrees}
use meals.Cooking.Undo.{but_recipes_updated_at, undo-record_cooked}
use meals.Tests.Data.{natural_amount, store, curry_night}

abbrev tonight : PlanMeal
tonight = record { id = 70; plan_id = 80; meal_id = 40; cooked_at = some 500 }

undo-record_cooked_example :
    Option.map
      (λ x. but_recipes_updated_at (undo_cooked 600 tonight x))
      (record_cooked 500 1 tonight curry_night (some 10) store)
    ≡ some (but_recipes_updated_at store)
unfolding restat_meal restat_recipe meal_events recipe_events latest keep any
undo-record_cooked_example =
    undo-record_cooked 500 600 1 tonight curry_night (some 10) 500 store refl (refl, refl) refl

record_cooked-Agrees_example :
    (db' : Db ℕ) × (record_cooked 500 1 tonight curry_night (some 10) store ≡ some db') × Agrees db'
unfolding restat_meal restat_recipe meal_events recipe_events latest keep
record_cooked-Agrees_example =
    record_cooked-Agrees 500 1 tonight curry_night (some 10) 500 store refl (refl, refl)

undo_cooked-Agrees_example :
    Agrees (undo_cooked 600 tonight (write_cooked 1 tonight curry_night (some 10) 500 500 store))
unfolding write_cooked cooking_events meal_event recipe_event refresh_meal_stats
    refresh_recipe_stats refresh_recipe flush_recipe refresh_all update_where find restat_meal
    restat_recipe meal_events recipe_events latest keep
undo_cooked-Agrees_example =
    undo_cooked-Agrees 600 tonight (write_cooked 1 tonight curry_night (some 10) 500 500 store)
      (refl, refl)

-- A cooking stamps the recipe whose counters it changes.
run_write_cooked :
    map (λ r. r.updated_at) (write_cooked 1 tonight curry_night (some 10) 500 600 store).recipes
    ≡ 600 ∷ []
unfolding write_cooked cooking_events meal_event recipe_event refresh_meal_stats
    refresh_recipe_stats refresh_recipe flush_recipe refresh_all update_where find restat_meal
    restat_recipe meal_events recipe_events latest keep
run_write_cooked = refl
