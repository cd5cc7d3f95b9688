-- ===== src/Plans/Archive.antt =====
-- What archiving a plan does to the shopping list.
use meals.Prelude.{
  ℕ, ◌≡◌, refl, String, Bool, false, not, Option, some, List, [], ◌∷◌, arith, keep, any, ◌==◌,
  nat_eq, string_eq, option_eq, ok, if◌then◌else◌,
}
use meals.Models.{Db}
use meals.Models.Planning.{Plan, PlanMeal}
use meals.Models.Shopping.{ListItemSource}
use meals.Limits.Counting.{is_archived}
use meals.Shopping.{is_from, sources_at, get_active_list, remove_meal_contributions}
use meals.Shopping.Removal.{sources_at-remove_sources}
use meals.Plans.{get_plan, meal_links, remove_links, remove_from_active, set_archived, archive_plan}

-- Whether a contribution is from one of these plan-meals.
unfoldable pub is_from_any : {Q : Type 0} → List PlanMeal → ListItemSource Q → Bool
unfolding any
is_from_any links s = any (λ k. is_from k.id s) links

module _ {Q : Type 0} where
  keep_both :
      (link : PlanMeal) (links : List PlanMeal) (xs : List (ListItemSource Q))
      → keep (λ s. not (is_from_any links s)) (keep (λ s. not (is_from link.id s)) xs)
        ≡ keep (λ s. not (is_from_any (link ∷ links) s)) xs
  unfolding keep is_from_any any
  keep_both link links [] = refl
  keep_both link links (x ∷ xs) = ground (arith, keep_both link links xs)

  keep_all : (xs : List (ListItemSource Q)) → keep (λ s. not (is_from_any [] s)) xs ≡ xs
  unfolding keep is_from_any any
  keep_all [] = refl
  keep_all (x ∷ xs) = ground (arith, keep_all xs)

  pub sources_at-remove_links :
      (l l' i' : ℕ) (u' : Option String) (links : List PlanMeal) (db : Db Q)
      → sources_at l' i' u' (remove_links l links db).list_items ≡ (
          if l == l'
          then keep (λ s. not (is_from_any links s)) (sources_at l' i' u' db.list_items)
          else sources_at l' i' u' db.list_items)
  unfolding remove_links remove_meal_contributions
  sources_at-remove_links l l' i' u' [] db =
      ground (arith, keep_all (sources_at l' i' u' db.list_items))
  sources_at-remove_links l l' i' u' (link ∷ links) db = ground (
    arith,
    sources_at-remove_links l l' i' u' links (remove_meal_contributions l link.id db),
    sources_at-remove_sources l link.id l' i' u' db.list_items,
    keep_both link links (sources_at l' i' u' db.list_items),
  )

  list_items-get_active_list :
      (uuid4 : ℕ → ℕ) (hh : ℕ) (db : Db Q)
      → (get_active_list uuid4 hh db).1.list_items ≡ db.list_items
  unfolding get_active_list
  list_items-get_active_list uuid4 hh db = ground arith

  -- Archiving an active plan succeeds; on the household's active list it takes, of every ingredient
  -- in every unit, exactly the contributions of the plan's meals, and it changes no contribution on
  -- any other list.
  pub archive_plan_lem :
      (uuid4 : ℕ → ℕ) (now hh plan_id : ℕ) (db : Db Q) (plan : Plan) (l' i' : ℕ)
      (u' : Option String)
      → get_plan hh plan_id db.plans ≡ some plan
      → is_archived plan.status ≡ false
      → (db' : Db Q) × (archive_plan uuid4 now hh plan_id db ≡ ok db')
        × (sources_at l' i' u' db'.list_items ≡ (
            if (get_active_list uuid4 hh db).0.id == l'
            then keep
                (λ s. not (is_from_any (meal_links plan.id db.plan_meals) s))
                (sources_at l' i' u' db.list_items)
            else sources_at l' i' u' db.list_items))
  unfolding archive_plan remove_from_active set_archived
  archive_plan_lem uuid4 now hh plan_id db plan l' i' u' found is_active =
      let links = meal_links plan.id db.plan_meals in
      let (l, db₁) = get_active_list uuid4 hh db in
      (
        set_archived now plan.id (remove_from_active uuid4 hh links db),
        ground (arith, found),
        ground (
          arith,
          sources_at-remove_links l.id l' i' u' links db₁,
          list_items-get_active_list uuid4 hh db,
        ),
      )
