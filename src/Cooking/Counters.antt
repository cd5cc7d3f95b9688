-- ===== src/Cooking/Counters.antt =====
-- The counters of meals and recipes are what the history says.
use meals.Prelude.{
  ℕ, ◌≡◌, refl, Option, some, List, [], ◌∷◌, ◌++◌, map, keep, not, arith, length, beq_refl, nat_eq,
  option_eq,
}
use meals.Amounts.{Amount}
use meals.Models.{Db}
use meals.Models.Catalog.{Recipe}
use meals.Models.Planning.{Meal, PlanMeal, CookedEvent}
use meals.Cooking.{
  is_of, ids_of, restat_meal, restat_recipe, flush_recipe, refresh_recipe, recipe_events, latest,
  refresh_meal_stats, refresh_recipe_stats, cooking_events, write_cooked, record_cooked,
  undo_cooked,
}
use meals.Cooking.Rows.{refresh_all-agrees}
use meals.Cooking.Events.{
  meal_events-cooking, recipe_events-cooking, meal_events-undo, recipe_events-undo, restat_meal-eq,
  restat_recipe-eq,
}

-- A refresh of every row from the events would change no row.
abbrev pub AgreesMeals : {Q : Type 0} → List (CookedEvent Q) → List (Meal Q) → Type 0
AgreesMeals es rows = map (restat_meal es) rows ≡ rows

abbrev pub AgreesRecipes : {Q : Type 0} → List (CookedEvent Q) → List (Recipe Q) → Type 0
AgreesRecipes es rows = map (restat_recipe es) rows ≡ rows

abbrev pub Agrees : {Q : Type 0} → Db Q → Type 0
Agrees db = AgreesMeals db.cooked_events db.meal_rows × AgreesRecipes db.cooked_events db.recipes

-- A recipe but for the instant of its last update.
unfoldable pub but_updated_at : {Q : Type 0} → Recipe Q → Recipe Q
but_updated_at r = record r { updated_at = 0 }

module _ {Q : Type 0} where
  pub unseen_meal :
      (es es' : List (CookedEvent Q)) (m : Meal Q)
      → restat_meal es (restat_meal es' m) ≡ restat_meal es m
  unfolding restat_meal
  unseen_meal es es' m = refl

  id-restat_meal : (es : List (CookedEvent Q)) (m : Meal Q) → (restat_meal es m).id ≡ m.id
  unfolding restat_meal
  id-restat_meal es m = refl

  settles_recipe :
      (now : ℕ) (es : List (CookedEvent Q)) (r : Recipe Q)
      → refresh_recipe now es (refresh_recipe now es r) ≡ refresh_recipe now es r
  unfolding refresh_recipe flush_recipe restat_recipe
  settles_recipe now es r =
      ground (
        arith,
        beq_refl (length (recipe_events r.id es)),
        beq_refl (latest (recipe_events r.id es)),
      )

  agrees_recipe :
      (now : ℕ) (es : List (CookedEvent Q)) (r : Recipe Q)
      → restat_recipe es (refresh_recipe now es r) ≡ refresh_recipe now es r
  unfolding refresh_recipe flush_recipe restat_recipe
  agrees_recipe now es r = ground arith

  same_recipe :
      (now : ℕ) (es : List (CookedEvent Q)) (r : Recipe Q) → (refresh_recipe now es r).id ≡ r.id
  unfolding refresh_recipe flush_recipe restat_recipe
  same_recipe now es r = ground arith

  -- The counters that a history gives a recipe, but for its stamp, are blind to any refresh.
  pub unseen_recipe :
      (now : ℕ) (es es' : List (CookedEvent Q)) (r : Recipe Q)
      → restat_recipe es (but_updated_at (refresh_recipe now es' r))
        ≡ restat_recipe es (but_updated_at r)
  unfolding refresh_recipe flush_recipe restat_recipe but_updated_at
  unseen_recipe now es es' r = ground arith

  pub write_cooked-Agrees :
      ⦃amount : Amount Q⦄ (hh : ℕ) (p : PlanMeal) (m : Meal Q) (user_id : Option ℕ)
      (cooked_at now : ℕ) (db : Db Q)
      → Agrees db
      → Agrees (write_cooked hh p m user_id cooked_at now db)
  unfolding write_cooked refresh_meal_stats refresh_recipe_stats
  write_cooked-Agrees hh p m user_id cooked_at now db (hm, hr) =
      let es = db.cooked_events in
      let es' = es ++ cooking_events hh p m user_id cooked_at db.recipes in
      (
        refresh_all-agrees (λ (m : Meal Q). m.id) restat_meal (restat_meal es') es es'
            (id-restat_meal es') (unseen_meal es' es') (unseen_meal es' es') (m.id ∷ [])
            db.meal_rows
            (λ x out.
              restat_meal-eq es es' x
                (meal_events-cooking hh p m user_id cooked_at db.recipes x.id es out))
            hm,
        refresh_all-agrees (λ (r : Recipe Q). r.id) restat_recipe (refresh_recipe now es') es es'
            (same_recipe now es') (settles_recipe now es') (agrees_recipe now es')
            (map (λ link. link.recipe_id) m.recipe_links) db.recipes
            (λ r out.
              restat_recipe-eq es es' r
                (recipe_events-cooking hh p m user_id cooked_at db.recipes r.id es out))
            hr,
      )

  -- A plan-meal that has its `cooked_at` is recorded, and the counters of all meals and recipes go
  -- on to agree with the history.
  pub record_cooked-Agrees :
      ⦃amount : Amount Q⦄ (now hh : ℕ) (p : PlanMeal) (m : Meal Q) (user_id : Option ℕ)
      (cooked_at : ℕ) (db : Db Q)
      → p.cooked_at ≡ some cooked_at
      → Agrees db
      → (db' : Db Q) × (record_cooked now hh p m user_id db ≡ some db') × Agrees db'
  unfolding record_cooked
  record_cooked-Agrees now hh p m user_id cooked_at db e h = (
    write_cooked hh p m user_id cooked_at now db,
    rw e refl,
    write_cooked-Agrees hh p m user_id cooked_at now db h,
  )

  -- When a cooking is taken back, the counters of all meals and recipes go on to agree with the
  -- history that is left.
  pub undo_cooked-Agrees :
      (now : ℕ) (p : PlanMeal) (db : Db Q) → Agrees db → Agrees (undo_cooked now p db)
  unfolding undo_cooked refresh_meal_stats refresh_recipe_stats
  undo_cooked-Agrees now p db (hm, hr) =
      let es = db.cooked_events in
      let left = keep (λ e. not (is_of p.id e)) es in
      let gone = keep (is_of p.id) es in
      (
        refresh_all-agrees (λ (m : Meal Q). m.id) restat_meal (restat_meal left) es left
            (id-restat_meal left) (unseen_meal left left) (unseen_meal left left)
            (ids_of (λ e. e.meal_id) gone) db.meal_rows
            (λ m out. restat_meal-eq es left m (meal_events-undo p.id m.id es out)) hm,
        refresh_all-agrees (λ (r : Recipe Q). r.id) restat_recipe (refresh_recipe now left) es left
            (same_recipe now left) (settles_recipe now left) (agrees_recipe now left)
            (ids_of (λ e. e.recipe_id) gone) db.recipes
            (λ r out. restat_recipe-eq es left r (recipe_events-undo p.id r.id es out)) hr,
      )
