-- ===== src/Plans/Unique.antt =====
-- No meal stands twice in a plan.
use meals.Prelude.{
  ℕ, ◌+◌, ◌≤◌, ◌≡◌, refl, false, ◌&&◌, Option, none, some, List, [], ◌∷◌, ◌++◌, arith, keep,
  keep-append, any, length, length-append, find-holds, ◌==◌, nat_eq, nat_beq_iff, >>=-eq-ok, suc,
  subst, sym, String, ok, Option-cases, inl, inr,
}
use meals.Amounts.{Amount}
use meals.Models.{Db}
use meals.Models.Planning.{Meal, Plan, PlanMeal, active}
use meals.Limits.Tiers.{Table, plans}
use meals.Limits.Settings.{Settings}
use meals.Limits.Enforce.{Clock, enforce}
use meals.Shopping.{
  Contribution, get_active_list, new_list, add_contribution, add_contributions,
  add_meal_contributions, meal_contributions,
}
use meals.Plans.{
  get_meal, insert_plan_meal, add_meal_to_plan, copy_meals, add_meal, create_plan, get_plan,
  meal_links, or_limited, or_error, copied_plan_not_found,
}

-- How often a meal stands in a plan.
unfoldable pub times_in : ℕ → ℕ → List PlanMeal → ℕ
unfolding keep
times_in plan_id meal_id rows =
    length (keep (λ x. x.plan_id == plan_id && x.meal_id == meal_id) rows)

times_in_absent :
    (plan_id meal_id : ℕ) (rows : List PlanMeal)
    → any (λ x. x.plan_id == plan_id && x.meal_id == meal_id) rows ≡ false
    → times_in plan_id meal_id rows ≡ 0
unfolding times_in keep any
times_in_absent plan_id meal_id [] h = refl
times_in_absent plan_id meal_id (x ∷ rows) h = ground (arith, times_in_absent plan_id meal_id rows)

times_in-append :
    (plan_id meal_id : ℕ) (xs ys : List PlanMeal)
    → times_in plan_id meal_id (xs ++ ys)
      ≡ times_in plan_id meal_id xs + times_in plan_id meal_id ys
unfolding times_in
times_in-append plan_id meal_id xs ys = ground (
  arith,
  keep-append (λ (x : PlanMeal). x.plan_id == plan_id && x.meal_id == meal_id) xs ys,
  length-append (keep (λ (x : PlanMeal). x.plan_id == plan_id && x.meal_id == meal_id) xs)
      (keep (λ (x : PlanMeal). x.plan_id == plan_id && x.meal_id == meal_id) ys),
)

append_once :
    (rows : List PlanMeal) (row : PlanMeal) (p k : ℕ)
    → any (λ x. x.plan_id == row.plan_id && x.meal_id == row.meal_id) rows ≡ false
    → times_in p k rows ≤ 1
    → times_in p k (rows ++ (row ∷ [])) ≤ 1
append_once rows row p k h once =
    unfold keep in
    unfold times_in in
    ground (
      arith,
      times_in-append p k rows (row ∷ []),
      times_in_absent row.plan_id row.meal_id rows h,
      nat_beq_iff row.plan_id p,
      nat_beq_iff row.meal_id k,
    )

module _ {Q : Type 0} ⦃amount : Amount Q⦄ (uuid4 : ℕ → ℕ) where
  plan_meals-add_contributions :
      (l p : ℕ) (db : Db Q) (cs : List (Contribution Q))
      → (add_contributions uuid4 l p db cs).plan_meals ≡ db.plan_meals
  unfolding add_contributions add_contribution
  plan_meals-add_contributions l p db [] = refl
  plan_meals-add_contributions l p db (c ∷ cs) =
      plan_meals-add_contributions l p (add_contribution uuid4 l p db c) cs

  module _ (s : Settings) (table : Table) (clock : Clock) (hh : ℕ) where
    plan_meals-insert :
        (plan : Plan) (m : Meal Q) (db : Db Q)
        → (insert_plan_meal uuid4 s table clock hh plan m db).plan_meals
          ≡ db.plan_meals
            ++ (record { id = uuid4 db.drawn; plan_id = plan.id; meal_id = m.id; cooked_at = none }
                ∷ [])
    unfolding insert_plan_meal get_active_list new_list add_meal_contributions
    plan_meals-insert plan m db =
        let fresh : PlanMeal = record {
          id = uuid4 db.drawn;
          plan_id = plan.id;
          meal_id = m.id;
          cooked_at = none;
        } in
        let added : Db Q = record db {
          plan_meals = db.plan_meals ++ (fresh ∷ []);
          drawn = suc db.drawn;
        } in
        let (l, db') = get_active_list uuid4 hh added in
        ground
          (arith, plan_meals-add_contributions l.id fresh.id db' (meal_contributions db'.recipes m))

    add_to_plan_once :
        (plan : Plan) (meal_id : ℕ) (db db' : Db Q) (p k : ℕ)
        → add_meal_to_plan uuid4 s table clock hh plan meal_id db ≡ ok db'
        → times_in p k db.plan_meals ≤ 1
        → times_in p k db'.plan_meals ≤ 1
    unfolding add_meal_to_plan get_meal
    add_to_plan_once plan meal_id db db' p k h once =
        elim (Option-cases (get_meal hh meal_id db.meal_rows)) [
          | inl e ↦ ground (arith, e)
          | inr (m, e) ↦
              let row : PlanMeal = record {
                id = uuid4 db.drawn;
                plan_id = plan.id;
                meal_id = m.id;
                cooked_at = none;
              } in
              let is_id : m.id ≡ meal_id = ground (
                arith,
                find-holds (λ (x : Meal Q). x.household_id == hh && x.id == meal_id) db.meal_rows m
                    e,
                nat_beq_iff m.id meal_id,
              ) in
              let absent : any (λ x. x.plan_id == plan.id && x.meal_id == meal_id) db.plan_meals
                  ≡ false =
                ground (arith, e) in
              let rows : db'.plan_meals ≡ db.plan_meals ++ (row ∷ []) =
                ground (arith, e, plan_meals-insert plan m db) in
              subst (λ rs. times_in p k rs ≤ 1) (sym rows)
                (append_once db.plan_meals row p k
                  (subst
                    (λ n. any (λ x. x.plan_id == plan.id && x.meal_id == n) db.plan_meals ≡ false)
                    (sym is_id) absent)
                  once)
        ]

    copy_once :
        (plan : Plan) (links : List PlanMeal) (db db' : Db Q) (p k : ℕ)
        → copy_meals uuid4 s table clock hh plan links db ≡ ok db'
        → times_in p k db.plan_meals ≤ 1
        → times_in p k db'.plan_meals ≤ 1
    unfolding copy_meals
    copy_once plan [] db db' p k h once = ground arith
    copy_once plan (link ∷ links) db db' p k h once =
        let (mid, first, rest) =
          >>=-eq-ok (add_meal_to_plan uuid4 s table clock hh plan link.meal_id db) _ h in
        copy_once plan links mid db' p k rest
          (add_to_plan_once plan link.meal_id db mid p k first once)

    -- Where no meal stands twice in a plan, none does after a meal is added to a plan.
    pub add_meal_once :
        (plan_id meal_id : ℕ) (db db' : Db Q) (p k : ℕ)
        → add_meal uuid4 s table clock hh plan_id meal_id db ≡ ok db'
        → times_in p k db.plan_meals ≤ 1
        → times_in p k db'.plan_meals ≤ 1
    unfolding add_meal
    add_meal_once plan_id meal_id db db' p k h once =
        elim (Option-cases (get_plan hh plan_id db.plans)) [
          | inl e ↦ ground (arith, e)
          | inr (plan, e) ↦ add_to_plan_once plan meal_id db db' p k (ground (arith, e)) once
        ]

    -- Where no meal stands twice in a plan, none does after a plan is created, empty or as a copy
    -- of another.
    pub create_plan_once :
        (label : String) (starts_on source : Option ℕ) (db db' : Db Q) (p k : ℕ)
        → create_plan uuid4 s table clock hh label starts_on source db ≡ ok db'
        → times_in p k db.plan_meals ≤ 1
        → times_in p k db'.plan_meals ≤ 1
    unfolding create_plan
    create_plan_once label starts_on none db db' p k h once = ground (arith, once)
    create_plan_once label starts_on (some id) db db' p k h once =
        let (u, admitted, h₁) =
          >>=-eq-ok (or_limited (enforce s table clock db hh plans 1 none none)) _ h in
        let fresh : Plan = record {
          id = uuid4 db.drawn;
          household_id = hh;
          label = label;
          starts_on = starts_on;
          status = active;
          archived_at = none;
        } in
        let added : Db Q = record db { plans = db.plans ++ (fresh ∷ []); drawn = suc db.drawn } in
        let (source, found, h₂) =
          >>=-eq-ok (or_error copied_plan_not_found (get_plan hh id added.plans)) _ h₁ in
        copy_once fresh (meal_links source.id added.plan_meals) added db' p k h₂ once
