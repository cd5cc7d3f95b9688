-- ===== src/Tests/Plans.antt =====
-- Runs of the plans.
use meals.Prelude.{
  ◌≤◌, arith, ℕ, ◌≡◌, refl, true, nat_eq, none, some, [], ◌∷◌, keep, find, any, ok, ◌>>=◌,
}
use meals.Models.{Db}
use meals.Models.Planning.{Plan, PlanMeal, active}
use meals.Cooking.{latest, meal_events, recipe_events, restat_meal, restat_recipe}
use meals.Shopping.{sources_at, is_line, get_active_list}
use meals.Plans.{
  get_plan, get_plan_meal, meal_links, mark_cooked, undo_mark_cooked, archive_plan, add_meal,
  add_meal_to_plan, get_meal, create_plan, copy_meals,
}
use meals.Cooking.Undo.{but_recipes_updated_at}
use meals.Plans.Archive.{is_from_any, archive_plan_lem}
use meals.Plans.Cooked.{undo_mark_cooked-mark_cooked, mark_cooked_again}
use meals.Tests.Data.{natural_amount, store, line, need, ids, got, hosted, clock}
use meals.Plans.Unique.{times_in, add_meal_once, create_plan_once}
use meals.Limits.Tiers.{hosted_profile, getattr, get, limit_set_of_name}
use meals.Limits.Settings.{anything_configured, limits_for, ceilings}
use meals.Limits.Counting.{count}
use meals.Limits.Enforce.{
  enforce, effective_tier, known_tier, has_limit, enforce_count, verdict, raise_refusal,
}

abbrev week : Plan
week = record {
  id = 80;
  household_id = 1;
  label = "w/c 20 July";
  starts_on = none;
  status = active;
  archived_at = none;
}

abbrev tonight : PlanMeal
tonight = record { id = 70; plan_id = 80; meal_id = 40; cooked_at = none }

abbrev planned : Db ℕ
planned = record store {
  plans = week ∷ [];
  plan_meals = tonight ∷ [];
  list_items = line 60 50 (some "tin") true (need (some 70) 6 ∷ need none 1 ∷ []) ∷ [];
}

undo_mark_cooked-mark_cooked_example :
    (db' : Db ℕ) × ((mark_cooked 500 1 80 70 (some 10) planned >>= undo_mark_cooked 900 1 80 70)
      ≡ ok db')
    × (but_recipes_updated_at db' ≡ but_recipes_updated_at planned)
unfolding get_plan get_plan_meal find restat_meal restat_recipe meal_events recipe_events latest
    keep any
undo_mark_cooked-mark_cooked_example =
    undo_mark_cooked-mark_cooked 500 1 80 70 (some 10) planned week tonight refl refl refl 900
      (refl, refl) refl

mark_cooked_again_example :
    (db' : Db ℕ) × (mark_cooked 500 1 80 70 (some 10) planned ≡ ok db')
    × (mark_cooked 600 1 80 70 none db' ≡ ok db')
unfolding get_plan get_plan_meal find
mark_cooked_again_example =
    mark_cooked_again 500 1 80 70 (some 10) planned week tonight refl refl refl 600 none

archive_plan_lem_example :
    (db' : Db ℕ) × (archive_plan ids 500 1 80 planned ≡ ok db')
    × (sources_at 7 50 (some "tin") db'.list_items ≡ need none 1 ∷ [])
unfolding get_plan find get_active_list keep is_from_any any meal_links sources_at is_line
archive_plan_lem_example = archive_plan_lem ids 500 1 80 planned week 7 50 (some "tin") refl refl

abbrev unplanned : Db ℕ
unplanned = record planned { plan_meals = [] }

add_meal_once_example :
    times_in 80 40
      (got unplanned (add_meal ids hosted hosted_profile clock 1 80 40 unplanned)).plan_meals
    ≤ 1
unfolding add_meal get_plan find add_meal_to_plan get_meal any enforce anything_configured
    effective_tier known_tier has_limit limits_for ceilings getattr get count keep enforce_count
    verdict raise_refusal times_in limit_set_of_name
add_meal_once_example =
    add_meal_once ids hosted hosted_profile clock 1 80 40 unplanned
      (got unplanned (add_meal ids hosted hosted_profile clock 1 80 40 unplanned)) 80 40 refl
      (omega arith)

create_plan_once_example :
    times_in 80 40
      (got planned (
        create_plan ids hosted hosted_profile clock 1 "next week" none
          (some 80)
          planned)).plan_meals
    ≤ 1
unfolding create_plan copy_meals meal_links get_plan find add_meal_to_plan get_meal any enforce
    anything_configured effective_tier known_tier has_limit limits_for ceilings getattr get count
    keep enforce_count verdict raise_refusal times_in limit_set_of_name
create_plan_once_example =
    create_plan_once ids hosted hosted_profile clock 1 "next week" none (some 80) planned
      (got planned
        (create_plan ids hosted hosted_profile clock 1 "next week" none (some 80) planned))
      80 40 refl (omega arith)
