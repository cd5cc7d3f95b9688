-- ===== src/Cooking.antt =====
-- backend/app/services/cooking.py: the history of what was cooked, and the counters that it feeds.
pub mod Rows
pub mod Events
pub mod Counters
pub mod Undo
use meals.Prelude.{
  ℕ, Bool, true, false, ◌&&◌, not, max, Option, none, some, List, [], ◌∷◌, ◌++◌, map, length, keep,
  find, update_where, ◌==◌, nat_eq, option_eq, if◌then◌else◌,
}
use mathlib.Core.Option
use meals.Amounts.{Amount}
use meals.Models.{Db}
use meals.Models.Catalog.{Recipe}
use meals.Models.Planning.{Meal, MealRecipe, PlanMeal, CookedEvent, Subject, meal, recipe}

abbrev pub is_meal : Subject → Bool
is_meal meal = true
is_meal recipe = false

abbrev pub is_recipe : Subject → Bool
is_recipe meal = false
is_recipe recipe = true

-- The loop `for x in ids: await refresh(x)` on the rows of one table.
unfoldable pub refresh_all : {M : Type 0} → (M → ℕ) → (M → M) → List ℕ → List M → List M
unfolding update_where
refresh_all id_of restat [] rows = rows
refresh_all id_of restat (id ∷ ids) rows =
    refresh_all id_of restat ids (update_where (λ m. id_of m == id) restat rows)

module _ {Q : Type 0} where
  -- `func.max(CookedEvent.cooked_at)`
  unfoldable pub latest : List (CookedEvent Q) → Option ℕ
  latest [] = none
  latest (e ∷ es) = elim (latest es) [
    | none ↦ some e.cooked_at
    | some other ↦ some (max e.cooked_at other)
  ]

  -- The events that `_refresh` counts, for a meal and for a recipe.
  unfoldable pub meal_events : ℕ → List (CookedEvent Q) → List (CookedEvent Q)
  unfolding keep
  meal_events id events = keep (λ e. e.meal_id == some id && is_meal e.subject) events

  unfoldable pub recipe_events : ℕ → List (CookedEvent Q) → List (CookedEvent Q)
  unfolding keep
  recipe_events id events = keep (λ e. e.recipe_id == some id && is_recipe e.subject) events

  -- What `_refresh` writes to the row.
  unfoldable pub restat_meal : List (CookedEvent Q) → Meal Q → Meal Q
  unfolding meal_events latest
  restat_meal events m = record m {
    times_cooked = length (meal_events m.id events);
    last_cooked_at = latest (meal_events m.id events);
  }

  unfoldable pub restat_recipe : List (CookedEvent Q) → Recipe Q → Recipe Q
  unfolding recipe_events latest
  restat_recipe events r = record r {
    times_cooked = length (recipe_events r.id events);
    last_cooked_at = latest (recipe_events r.id events);
  }

  unfoldable pub refresh_meal_stats : List ℕ → Db Q → Db Q
  unfolding refresh_all restat_meal
  refresh_meal_stats ids db = record db {
    meal_rows = refresh_all (λ m. m.id) (restat_meal db.cooked_events) ids db.meal_rows;
  }

  -- `onupdate=utcnow`: the flush stamps a row whose columns have changed.
  unfoldable pub flush_recipe : ℕ → Recipe Q → Recipe Q → Recipe Q
  flush_recipe now before after =
      if after.times_cooked == before.times_cooked && after.last_cooked_at == before.last_cooked_at
      then after
      else record after { updated_at = now }

  -- `_refresh` of a recipe that is there, with the flush of its row.
  unfoldable pub refresh_recipe : ℕ → List (CookedEvent Q) → Recipe Q → Recipe Q
  unfolding flush_recipe restat_recipe
  refresh_recipe now events r = flush_recipe now r (restat_recipe events r)

  unfoldable pub refresh_recipe_stats : ℕ → List ℕ → Db Q → Db Q
  unfolding refresh_all refresh_recipe
  refresh_recipe_stats now ids db = record db {
    recipes = refresh_all (λ r. r.id) (refresh_recipe now db.cooked_events) ids db.recipes;
  }

  -- `{event.meal_id for event in events if event.meal_id}`. A refresh that is repeated writes the
  -- same, so a set and a list of ids are one.
  unfoldable pub ids_of : (CookedEvent Q → Option ℕ) → List (CookedEvent Q) → List ℕ
  ids_of column [] = []
  ids_of column (e ∷ es) = elim (column e) [
    | none ↦ ids_of column es
    | some id ↦ id ∷ ids_of column es
  ]

  abbrev pub is_of : ℕ → CookedEvent Q → Bool
  is_of plan_meal_id e = e.plan_meal_id == some plan_meal_id

  -- `now` is the instant of the flushes.
  unfoldable pub undo_cooked : ℕ → PlanMeal → Db Q → Db Q
  unfolding keep ids_of refresh_meal_stats refresh_recipe_stats
  undo_cooked now plan_meal db =
      let gone = keep (is_of plan_meal.id) db.cooked_events in
      refresh_recipe_stats now (ids_of (λ e. e.recipe_id) gone) (
        refresh_meal_stats (ids_of (λ e. e.meal_id) gone)
          (record db { cooked_events = keep (λ e. not (is_of plan_meal.id e)) db.cooked_events }))

module _ {Q : Type 0} ⦃amount : Amount Q⦄ (hh : ℕ) (p : PlanMeal) (m : Meal Q) (user_id : Option ℕ)
    (cooked_at : ℕ) where
  unfoldable pub meal_event : CookedEvent Q
  meal_event = record {
    household_id = hh;
    subject = meal;
    meal_id = some m.id;
    recipe_id = none;
    plan_meal_id = some p.id;
    meal_name = some m.name;
    recipe_title = none;
    scale = amount.one;
    cooked_at = cooked_at;
    created_by = user_id;
  }

  unfoldable pub recipe_event : List (Recipe Q) → MealRecipe Q → CookedEvent Q
  unfolding find
  recipe_event recipes link = record {
    household_id = hh;
    subject = recipe;
    meal_id = some m.id;
    recipe_id = some link.recipe_id;
    plan_meal_id = some p.id;
    meal_name = some m.name;
    recipe_title = Option.map (λ r. r.title) (find (λ r. r.id == link.recipe_id) recipes);
    scale = link.scale;
    cooked_at = cooked_at;
    created_by = user_id;
  }

  unfoldable pub cooking_events : List (Recipe Q) → List (CookedEvent Q)
  unfolding meal_event recipe_event
  cooking_events recipes = meal_event ∷ map (recipe_event recipes) m.recipe_links

  -- The rows that are added, and the refreshes behind them.
  unfoldable pub write_cooked : ℕ → Db Q → Db Q
  unfolding cooking_events refresh_meal_stats refresh_recipe_stats
  write_cooked now db = refresh_recipe_stats now (map (λ link. link.recipe_id) m.recipe_links) (
      refresh_meal_stats (m.id ∷ [])
        (record db { cooked_events = db.cooked_events ++ cooking_events db.recipes }))

-- `none` is the assertion that the plan-meal has its `cooked_at`; `now` is the instant of the
-- flushes.
unfoldable pub record_cooked :
    {Q : Type 0} ⦃amount : Amount Q⦄ → ℕ → ℕ → PlanMeal → Meal Q → Option ℕ → Db Q → Option (Db Q)
unfolding write_cooked
record_cooked now hh p m user_id db =
    Option.map (λ cooked_at. write_cooked hh p m user_id cooked_at now db) p.cooked_at
