-- ===== src/Cooking/Undo.antt =====
-- A cooking that is taken back.
use meals.Prelude.{
  ℕ, ◌≡◌, refl, ◌∙◌, sym, ap, false, Option, some, List, arith, [], ◌∷◌, ◌++◌, map, keep, any, not,
}
use mathlib.Core.Option
use meals.Amounts.{Amount}
use meals.Models.{Db}
use meals.Models.Catalog.{Recipe}
use meals.Models.Planning.{Meal, MealRecipe, PlanMeal, CookedEvent}
use meals.Cooking.{
  is_of, ids_of, restat_meal, restat_recipe, refresh_all, refresh_recipe, refresh_meal_stats,
  refresh_recipe_stats, cooking_events, write_cooked, record_cooked, undo_cooked,
}
use meals.Cooking.Events.{others-cooking}
use meals.Cooking.Rows.{map-refresh_all}
use meals.Cooking.Counters.{
  Agrees, but_updated_at, unseen_meal, unseen_recipe, write_cooked-Agrees, undo_cooked-Agrees,
}

-- The database but for the instants at which its recipes were last updated.
unfoldable pub but_recipes_updated_at : {Q : Type 0} → Db Q → Db Q
unfolding but_updated_at
but_recipes_updated_at db = record db { recipes = map but_updated_at db.recipes }

module _ {Q : Type 0} where
  -- Counters that agree with a history agree with it but for the stamps, too.
  agrees-but_updated_at :
      (es : List (CookedEvent Q)) (rows : List (Recipe Q))
      → map (λ r. restat_recipe es (but_updated_at r)) rows
        ≡ map but_updated_at (map (restat_recipe es) rows)
  unfolding restat_recipe but_updated_at
  agrees-but_updated_at es [] = refl
  agrees-but_updated_at es (r ∷ rows) = ground (arith, agrees-but_updated_at es rows)

module _ {Q : Type 0} ⦃amount : Amount Q⦄ (hh : ℕ) (p : PlanMeal) (m : Meal Q) (user_id : Option ℕ)
    (cooked_at now later : ℕ) (db : Db Q) (agrees : Agrees db)
    (fresh : any (is_of p.id) db.cooked_events ≡ false) where
  cooked : Db Q
  cooked = write_cooked hh p m user_id cooked_at now db

  undone : Db Q
  undone = undo_cooked later p cooked

  events_back : undone.cooked_events ≡ db.cooked_events
  unfolding undone cooked undo_cooked write_cooked refresh_meal_stats refresh_recipe_stats
  events_back = others-cooking hh p m user_id cooked_at db.recipes db.cooked_events fresh

  undone-Agrees : Agrees undone
  unfolding undone cooked
  undone-Agrees =
      undo_cooked-Agrees later p cooked (write_cooked-Agrees hh p m user_id cooked_at now db agrees)

  -- Both refreshes are forgotten by the counters of the first history.
  meals_forget :
      map (restat_meal db.cooked_events) undone.meal_rows
      ≡ map (restat_meal db.cooked_events) db.meal_rows
  unfolding undone cooked undo_cooked write_cooked refresh_meal_stats refresh_recipe_stats
  meals_forget =
      let es = db.cooked_events in
      let es' = es ++ cooking_events hh p m user_id cooked_at db.recipes in
      let left = keep (λ e. not (is_of p.id e)) es' in
      let once = refresh_all (λ (m : Meal Q). m.id) (restat_meal es') (m.id ∷ []) db.meal_rows in
      map-refresh_all (λ (m : Meal Q). m.id) (restat_meal left) (restat_meal es)
        (unseen_meal es left) (ids_of (λ e. e.meal_id) (keep (is_of p.id) es')) once
      ∙ map-refresh_all (λ (m : Meal Q). m.id) (restat_meal es') (restat_meal es)
          (unseen_meal es es') (m.id ∷ []) db.meal_rows

  recipes_forget :
      map (λ r. restat_recipe db.cooked_events (but_updated_at r)) undone.recipes
      ≡ map (λ r. restat_recipe db.cooked_events (but_updated_at r)) db.recipes
  unfolding undone cooked undo_cooked write_cooked refresh_meal_stats refresh_recipe_stats
  recipes_forget =
      let es = db.cooked_events in
      let es' = es ++ cooking_events hh p m user_id cooked_at db.recipes in
      let left = keep (λ e. not (is_of p.id e)) es' in
      let links = map (λ (link : MealRecipe Q). link.recipe_id) m.recipe_links in
      let once = refresh_all (λ (r : Recipe Q). r.id) (refresh_recipe now es') links db.recipes in
      let see : Recipe Q → Recipe Q = λ r. restat_recipe es (but_updated_at r) in
      map-refresh_all (λ (r : Recipe Q). r.id) (refresh_recipe later left) see
        (unseen_recipe later es left) (ids_of (λ e. e.recipe_id) (keep (is_of p.id) es')) once
      ∙ map-refresh_all (λ (r : Recipe Q). r.id) (refresh_recipe now es') see
          (unseen_recipe now es es') links db.recipes

  meals_back : undone.meal_rows ≡ db.meal_rows
  meals_back = sym (rw events_back at undone-Agrees.0) ∙ meals_forget ∙ agrees.0

  recipes_back : map but_updated_at undone.recipes ≡ map but_updated_at db.recipes
  recipes_back =
      ap (map but_updated_at) (sym (rw events_back at undone-Agrees.1))
      ∙ sym (agrees-but_updated_at db.cooked_events undone.recipes)
      ∙ recipes_forget
      ∙ agrees-but_updated_at db.cooked_events db.recipes
      ∙ ap (map but_updated_at) agrees.1

  undone-eq : undone ≡ record db {
    cooked_events = undone.cooked_events;
    meal_rows = undone.meal_rows;
    recipes = undone.recipes;
  }
  unfolding undone cooked undo_cooked write_cooked refresh_meal_stats refresh_recipe_stats
  undone-eq = refl

  pub undo-write_cooked :
      but_recipes_updated_at (undo_cooked later p (write_cooked hh p m user_id cooked_at now db))
      ≡ but_recipes_updated_at db
  unfolding undone cooked but_recipes_updated_at
  undo-write_cooked =
      ap but_recipes_updated_at undone-eq
      ∙ ap
          (λ es. record db {
            cooked_events = es;
            meal_rows = undone.meal_rows;
            recipes = map but_updated_at undone.recipes;
          })
          events_back
      ∙ ap (λ rows. record db { meal_rows = rows; recipes = map but_updated_at undone.recipes })
          meals_back
      ∙ ap (λ rows. record db { recipes = rows }) recipes_back

-- Taking back a cooking at once gives back the whole database, the history and the counters of
-- every meal and recipe included, if they agreed with the history and the plan-meal had no events
-- in it; only the instants at which recipes were last updated are not given back.
pub undo-record_cooked :
    {Q : Type 0} ⦃amount : Amount Q⦄ (now later hh : ℕ) (p : PlanMeal) (m : Meal Q)
    (user_id : Option ℕ) (cooked_at : ℕ) (db : Db Q)
    → p.cooked_at ≡ some cooked_at
    → Agrees db
    → any (is_of p.id) db.cooked_events ≡ false
    → Option.map
        (λ x. but_recipes_updated_at (undo_cooked later p x))
        (record_cooked now hh p m user_id db)
      ≡ some (but_recipes_updated_at db)
unfolding record_cooked
undo-record_cooked now later hh p m user_id cooked_at db e agrees fresh =
    ap
      (λ at.
        Option.map (λ x. but_recipes_updated_at (undo_cooked later p x))
          (Option.map (λ t. write_cooked hh p m user_id t now db) at))
      e
    ∙ ap some (undo-write_cooked hh p m user_id cooked_at now later db agrees fresh)
