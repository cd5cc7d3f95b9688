-- ===== src/Plans/Cooked.antt =====
-- A meal that is marked as cooked, and then is not.
use meals.Prelude.{
  ℕ, ◌≡◌, refl, ◌∙◌, ap, sym, Bool, false, Option, none, some, List, [], ◌∷◌, arith, keep, find,
  find-holds, any, update_first, keep_of_none, beq_refl, nat_beq_iff, ◌==◌, nat_eq, option_eq, ok,
  ◌>>=◌, Option-cases, inl, inr,
}
use meals.Amounts.{Amount}
use meals.Models.{Db}
use meals.Models.Planning.{Meal, Plan, PlanMeal}
use meals.Cooking.{
  is_of, ids_of, refresh_all, refresh_meal_stats, refresh_recipe_stats, write_cooked, record_cooked,
  undo_cooked,
}
use meals.Cooking.Counters.{Agrees}
use meals.Cooking.Undo.{but_recipes_updated_at, undo-write_cooked}
use meals.Plans.{get_plan, get_plan_meal, get_meal, set_cooked_at, mark_cooked, undo_mark_cooked}

abbrev with_cooked_at : Option ℕ → PlanMeal → PlanMeal
with_cooked_at at m = record m { cooked_at = at }

reset-eta : (m : PlanMeal) → m.cooked_at ≡ none → with_cooked_at none m ≡ m
reset-eta m h = ap (λ at. with_cooked_at at m) (sym h)

module _ (k : ℕ) (link : PlanMeal) where
  find-set :
      (at : Option ℕ) (rows : List PlanMeal)
      → find (λ m. m.id == k) rows ≡ some link
      → find (λ m. m.id == k) (update_first (λ m. m.id == link.id) (with_cooked_at at) rows)
        ≡ some (with_cooked_at at link)
  unfolding find update_first
  find-set at [] h = cc
  find-set at (m ∷ rows) h = ground (
    arith,
    find-set at rows,
    find-holds (λ (x : PlanMeal). x.id == k) (m ∷ rows) link h,
    nat_beq_iff link.id k,
    beq_refl link.id,
  )

  set-set :
      (now : ℕ) (rows : List PlanMeal)
      → find (λ m. m.id == k) rows ≡ some link
      → link.cooked_at ≡ none
      → update_first
          (λ m. m.id == link.id)
          (with_cooked_at none)
          (update_first (λ m. m.id == link.id) (with_cooked_at (some now)) rows)
        ≡ rows
  unfolding find update_first
  set-set now [] h e = refl
  set-set now (m ∷ rows) h e = ground (
    arith,
    set-set now rows,
    find-holds (λ (x : PlanMeal). x.id == k) (m ∷ rows) link h,
    nat_beq_iff link.id k,
    beq_refl link.id,
    reset-eta link e,
  )

find_of_get :
    (plan_id k : ℕ) (rows : List PlanMeal) (link : PlanMeal)
    → get_plan_meal plan_id k rows ≡ ok link
    → find (λ m. m.id == k) rows ≡ some link
unfolding get_plan_meal
find_of_get plan_id k rows link h = ground arith

get-set :
    (plan_id k : ℕ) (rows : List PlanMeal) (link : PlanMeal) (at : Option ℕ)
    → get_plan_meal plan_id k rows ≡ ok link
    → get_plan_meal plan_id k (update_first (λ m. m.id == link.id) (with_cooked_at at) rows)
      ≡ ok (with_cooked_at at link)
unfolding get_plan_meal
get-set plan_id k rows link at h =
    ground (arith, find-set k link at rows (find_of_get plan_id k rows link h))

keep_nothing : {A : Type 0} (p : A → Bool) (xs : List A) → any p xs ≡ false → keep p xs ≡ []
unfolding keep any
keep_nothing p [] h = refl
keep_nothing p (x ∷ xs) h = ground (arith, keep_nothing p xs)

module _ {Q : Type 0} where
  undo_nothing :
      (now : ℕ) (p : PlanMeal) (db : Db Q)
      → any (is_of p.id) db.cooked_events ≡ false
      → undo_cooked now p db ≡ db
  unfolding undo_cooked refresh_meal_stats refresh_recipe_stats ids_of refresh_all
  undo_nothing now p db h =
      rw
        (keep_nothing (is_of p.id) db.cooked_events h, keep_of_none (is_of p.id) db.cooked_events h)
        refl

  module _ ⦃amount : Amount Q⦄ (hh : ℕ) (p : PlanMeal) (m : Meal Q) (user_id : Option ℕ)
      (at now : ℕ) where
    set-write_cooked :
        (link : PlanMeal) (o : Option ℕ) (db : Db Q)
        → set_cooked_at link o (write_cooked hh p m user_id at now db)
          ≡ write_cooked hh p m user_id at now (set_cooked_at link o db)
    unfolding set_cooked_at write_cooked refresh_meal_stats refresh_recipe_stats
    set-write_cooked link o db = refl

  set-back :
      (plan_id k now : ℕ) (link : PlanMeal) (db : Db Q)
      → get_plan_meal plan_id k db.plan_meals ≡ ok link
      → link.cooked_at ≡ none
      → set_cooked_at link none (set_cooked_at link (some now) db) ≡ db
  unfolding set_cooked_at
  set-back plan_id k now link db h e =
      ap (λ rows. record db { plan_meals = rows })
        (set-set k link now db.plan_meals (find_of_get plan_id k db.plan_meals link h) e)

  -- What `mark_cooked` leaves, in its two cases.
  abbrev marked : ⦃amount : Amount Q⦄ → ℕ → ℕ → PlanMeal → Option ℕ → Option (Meal Q) → Db Q → Db Q
  marked now hh link user_id none db = set_cooked_at link (some now) db
  marked now hh link user_id (some m) db =
      write_cooked hh (with_cooked_at (some now) link) m user_id now now
        (set_cooked_at link (some now) db)

  module _ ⦃amount : Amount Q⦄ (now hh plan_id k : ℕ) (user_id : Option ℕ) (db : Db Q) (plan : Plan)
      (link : PlanMeal) (found : get_plan hh plan_id db.plans ≡ some plan)
      (in_plan : get_plan_meal plan.id k db.plan_meals ≡ ok link)
      (unmarked : link.cooked_at ≡ none) where
    abbrev pub after : Db Q
    after = marked now hh link user_id (get_meal hh link.meal_id db.meal_rows) db

    mark_cooked-eq : mark_cooked now hh plan_id k user_id db ≡ ok after
    unfolding mark_cooked record_cooked set_cooked_at
    mark_cooked-eq = elim (Option-cases (get_meal hh link.meal_id db.meal_rows)) [
      | inl e ↦ ground (arith, found, in_plan, e)
      | inr (m, e) ↦ ground (arith, found, in_plan, e)
    ]

    plans-after : (o : Option (Meal Q)) → (marked now hh link user_id o db).plans ≡ db.plans
    unfolding set_cooked_at write_cooked refresh_meal_stats refresh_recipe_stats
    plans-after none = refl
    plans-after (some m) = refl

    plan_meals-after :
        (o : Option (Meal Q))
        → (marked now hh link user_id o db).plan_meals
          ≡ update_first (λ m. m.id == link.id) (with_cooked_at (some now)) db.plan_meals
    unfolding set_cooked_at write_cooked refresh_meal_stats refresh_recipe_stats
    plan_meals-after none = refl
    plan_meals-after (some m) = refl

    module _ (later : ℕ) where
      undo-eq :
          (o : Option (Meal Q))
          → undo_mark_cooked later hh plan_id k (marked now hh link user_id o db)
            ≡ ok (
                undo_cooked later
                  (with_cooked_at (some now) link)
                  (set_cooked_at link none (marked now hh link user_id o db)))
      unfolding undo_mark_cooked set_cooked_at
      undo-eq o = ground (
        arith,
        found,
        plans-after o,
        plan_meals-after o,
        get-set plan.id k db.plan_meals link (some now) in_plan,
      )

      module _ (agrees : Agrees db) (fresh : any (is_of link.id) db.cooked_events ≡ false) where
        undone-after :
            (o : Option (Meal Q))
            → but_recipes_updated_at (
                undo_cooked later
                  (with_cooked_at (some now) link)
                  (set_cooked_at link none (marked now hh link user_id o db)))
              ≡ but_recipes_updated_at db
        undone-after none =
            let link' = with_cooked_at (some now) link in
            ap (λ x. but_recipes_updated_at (undo_cooked later link' x))
              (set-back plan.id k now link db in_plan unmarked)
            ∙ ap but_recipes_updated_at (undo_nothing later link' db fresh)
        undone-after (some m) =
            let link' = with_cooked_at (some now) link in
            ap (λ x. but_recipes_updated_at (undo_cooked later link' x))
              (set-write_cooked hh link' m user_id now now link none
                  (set_cooked_at link (some now) db)
                ∙ ap (write_cooked hh link' m user_id now now)
                    (set-back plan.id k now link db in_plan unmarked))
            ∙ undo-write_cooked hh link' m user_id now now later db agrees fresh

        -- A plan-meal that was not marked as cooked is marked, and the request that takes the mark
        -- back, at any instant, succeeds and gives back the whole database but for the instants at
        -- which recipes were last updated, where the counters agreed with the history and no
        -- cooking of the plan-meal was in it.
        pub undo_mark_cooked-mark_cooked :
            (db' : Db Q) × ((mark_cooked now hh plan_id k user_id db
                >>= undo_mark_cooked later hh plan_id k)
              ≡ ok db')
            × (but_recipes_updated_at db' ≡ but_recipes_updated_at db)
        undo_mark_cooked-mark_cooked =
            let o = get_meal hh link.meal_id db.meal_rows in
            let link' = with_cooked_at (some now) link in
            (
              undo_cooked later link' (set_cooked_at link none after),
              ap (λ r. r >>= undo_mark_cooked later hh plan_id k) mark_cooked-eq ∙ undo-eq o,
              undone-after o,
            )

    -- Marking twice, whoever asks and at whatever instant, is marking once.
    pub mark_cooked_again :
        (later : ℕ) (other : Option ℕ)
        → (db' : Db Q) × (mark_cooked now hh plan_id k user_id db ≡ ok db')
          × (mark_cooked later hh plan_id k other db' ≡ ok db')
    unfolding mark_cooked
    mark_cooked_again later other =
        let o = get_meal hh link.meal_id db.meal_rows in
        (
          after,
          mark_cooked-eq,
          ground (
            arith,
            found,
            plans-after o,
            plan_meals-after o,
            get-set plan.id k db.plan_meals link (some now) in_plan,
          ),
        )
