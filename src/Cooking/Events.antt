-- ===== src/Cooking/Events.antt =====
-- Which events a cooking adds and an undo takes, for each meal and each recipe.
use meals.Prelude.{
  ℕ, ◌≡◌, refl, false, ◌&&◌, not, Option, some, List, [], ◌∷◌, ◌++◌, map, keep, keep-append, any,
  mem, arith, ◌==◌, nat_eq, beq_refl, option_eq, keep_of_none,
}
use mathlib.Core.List.{append-nil}
use meals.Amounts.{Amount}
use meals.Models.Catalog.{Recipe}
use meals.Models.Planning.{Meal, MealRecipe, PlanMeal, CookedEvent}
use meals.Cooking.{
  is_meal, is_recipe, is_of, ids_of, meal_events, recipe_events, restat_meal, restat_recipe,
  meal_event, recipe_event, cooking_events,
}

module _ {Q : Type 0} ⦃amount : Amount Q⦄ (hh : ℕ) (p : PlanMeal) (m : Meal Q) (user_id : Option ℕ)
    (cooked_at : ℕ) (recipes : List (Recipe Q)) where
  meal_events-recipes :
      (id : ℕ) (links : List (MealRecipe Q))
      → meal_events id (map (recipe_event hh p m user_id cooked_at recipes) links) ≡ []
  unfolding meal_events recipe_event keep
  meal_events-recipes id [] = refl
  meal_events-recipes id (link ∷ links) = ground (arith, meal_events-recipes id links)

  recipe_events-recipes :
      (id : ℕ) (links : List (MealRecipe Q))
      → mem id (map (λ (link : MealRecipe Q). link.recipe_id) links) ≡ false
      → recipe_events id (map (recipe_event hh p m user_id cooked_at recipes) links) ≡ []
  unfolding recipe_events recipe_event keep mem
  recipe_events-recipes id [] h = refl
  recipe_events-recipes id (link ∷ links) h = ground (arith, recipe_events-recipes id links)

  pub meal_events-cooking :
      (id : ℕ) (es : List (CookedEvent Q))
      → mem id (m.id ∷ []) ≡ false
      → meal_events id (es ++ cooking_events hh p m user_id cooked_at recipes) ≡ meal_events id es
  unfolding meal_events cooking_events meal_event keep mem
  meal_events-cooking id es h = ground (
    arith,
    keep-append (λ e. e.meal_id == some id && is_meal e.subject) es
        (cooking_events hh p m user_id cooked_at recipes),
    meal_events-recipes id m.recipe_links,
    append-nil (keep (λ e. e.meal_id == some id && is_meal e.subject) es),
  )

  pub recipe_events-cooking :
      (id : ℕ) (es : List (CookedEvent Q))
      → mem id (map (λ (link : MealRecipe Q). link.recipe_id) m.recipe_links) ≡ false
      → recipe_events id (es ++ cooking_events hh p m user_id cooked_at recipes)
        ≡ recipe_events id es
  unfolding recipe_events cooking_events meal_event keep
  recipe_events-cooking id es h = ground (
    arith,
    keep-append (λ e. e.recipe_id == some id && is_recipe e.subject) es
        (cooking_events hh p m user_id cooked_at recipes),
    recipe_events-recipes id m.recipe_links,
    append-nil (keep (λ e. e.recipe_id == some id && is_recipe e.subject) es),
  )

  others-recipes :
      (links : List (MealRecipe Q))
      → keep (λ e. not (is_of p.id e)) (map (recipe_event hh p m user_id cooked_at recipes) links)
        ≡ []
  unfolding keep recipe_event
  others-recipes [] = refl
  others-recipes (link ∷ links) = ground (arith, others-recipes links, beq_refl p.id)

  -- An undo takes all events of the cooking, and no other if the plan-meal had none.
  pub others-cooking :
      (es : List (CookedEvent Q))
      → any (is_of p.id) es ≡ false
      → keep (λ e. not (is_of p.id e)) (es ++ cooking_events hh p m user_id cooked_at recipes) ≡ es
  unfolding keep cooking_events meal_event
  others-cooking es h = ground (
    arith,
    keep-append (λ e. not (is_of p.id e)) es (cooking_events hh p m user_id cooked_at recipes),
    keep_of_none (is_of p.id) es h,
    others-recipes m.recipe_links,
    beq_refl p.id,
    append-nil es,
  )

module _ {Q : Type 0} (p : ℕ) where
  -- The events of an entity that none of the plan-meal's events names stay.
  pub meal_events-undo :
      (id : ℕ) (es : List (CookedEvent Q))
      → mem id (ids_of (λ e. e.meal_id) (keep (is_of p) es)) ≡ false
      → meal_events id (keep (λ e. not (is_of p e)) es) ≡ meal_events id es
  unfolding meal_events keep mem ids_of
  meal_events-undo id [] h = refl
  meal_events-undo id (e ∷ es) h = ground (arith, meal_events-undo id es)

  pub recipe_events-undo :
      (id : ℕ) (es : List (CookedEvent Q))
      → mem id (ids_of (λ e. e.recipe_id) (keep (is_of p) es)) ≡ false
      → recipe_events id (keep (λ e. not (is_of p e)) es) ≡ recipe_events id es
  unfolding recipe_events keep mem ids_of
  recipe_events-undo id [] h = refl
  recipe_events-undo id (e ∷ es) h = ground (arith, recipe_events-undo id es)

module _ {Q : Type 0} (es es' : List (CookedEvent Q)) where
  -- A row whose events are the same has the same counters.
  pub restat_meal-eq :
      (m : Meal Q)
      → meal_events m.id es' ≡ meal_events m.id es
      → restat_meal es' m ≡ restat_meal es m
  unfolding restat_meal
  restat_meal-eq m h = rw h refl

  pub restat_recipe-eq :
      (r : Recipe Q)
      → recipe_events r.id es' ≡ recipe_events r.id es
      → restat_recipe es' r ≡ restat_recipe es r
  unfolding restat_recipe
  restat_recipe-eq r h = rw h refl
