-- ===== src/Plans.antt =====
-- backend/app/routers/plans.py: what changes the plans of a household.
pub mod Cooked
pub mod Archive
pub mod Unique
use mathlib.Core.Option
use meals.Prelude.{
  ℕ, suc, String, Bool, true, false, ◌&&◌, not, Option, none, some, List, [], ◌∷◌, ◌++◌, map, keep,
  find, any, update_first, erase_first, ◌==◌, nat_eq, option_eq, if◌then◌else◌, Result, ok, err,
  ◌>>=◌, ◌>>◌, raise_if,
}
use meals.Amounts.{Amount}
use meals.Models.{Db}
use meals.Models.Planning.{Meal, Plan, PlanStatus, active, archived, PlanMeal, CookedEvent}
use meals.Limits.Tiers.{Table, plans, plan_meals}
use meals.Limits.Settings.{Settings}
use meals.Limits.Counting.{is_archived}
use meals.Limits.Enforce.{Clock, EnforceError, enforce}
use meals.Shopping.{left, get_active_list, add_meal_contributions, remove_meal_contributions}
use meals.Cooking.{record_cooked, undo_cooked}

pub data PlanError : Type 0 where
  plan_not_found meal_not_in_plan plan_is_archived unknown_meal already_in_plan
        copied_plan_not_found :
      PlanError
  cooked_at_missing : PlanError
  limited : EnforceError → PlanError

abbrev pub or_limited : Result EnforceError (Unit {0}) → Result PlanError (Unit {0})
or_limited (ok u) = ok u
or_limited (err e) = err (limited e)

abbrev pub or_error : {A : Type 0} → PlanError → Option A → Result PlanError A
or_error e none = err e
or_error e (some a) = ok a

unfoldable pub get_plan : ℕ → ℕ → List Plan → Option Plan
unfolding find
get_plan household_id plan_id rows =
    find (λ p. p.household_id == household_id && p.id == plan_id) rows

-- `db.get(PlanMeal, plan_meal_id)`, refused unless it is in the plan
unfoldable pub get_plan_meal : ℕ → ℕ → List PlanMeal → Result PlanError PlanMeal
unfolding find
get_plan_meal plan_id plan_meal_id rows = elim (find (λ m. m.id == plan_meal_id) rows) [
  | none ↦ err meal_not_in_plan
  | some m ↦ if m.plan_id == plan_id then ok m else err meal_not_in_plan
]

unfoldable pub meal_links : ℕ → List PlanMeal → List PlanMeal
unfolding keep
meal_links plan_id rows = keep (λ m. m.plan_id == plan_id) rows

module _ {Q : Type 0} where
  -- `routers/meals.py`
  unfoldable pub get_meal : ℕ → ℕ → List (Meal Q) → Option (Meal Q)
  unfolding find
  get_meal household_id meal_id rows =
      find (λ m. m.household_id == household_id && m.id == meal_id) rows

  -- `ondelete="SET NULL"`
  unfoldable pub forget_plan_meal : ℕ → CookedEvent Q → CookedEvent Q
  forget_plan_meal id e = record e {
    plan_meal_id = if e.plan_meal_id == some id then none else e.plan_meal_id;
  }

  -- The row, and what its foreign keys do: its contributions go from every list, and its events
  -- stay without it.
  unfoldable pub delete_plan_meal : ℕ → Db Q → Db Q
  unfolding erase_first left forget_plan_meal
  delete_plan_meal id db = record db {
    plan_meals = erase_first (λ m. m.id == id) db.plan_meals;
    list_items = map (left id) db.list_items;
    cooked_events = map (forget_plan_meal id) db.cooked_events;
  }

  -- The loop of `archive_plan` over `plan.meal_links`.
  unfoldable pub remove_links : ℕ → List PlanMeal → Db Q → Db Q
  unfolding remove_meal_contributions
  remove_links list_id [] db = db
  remove_links list_id (link ∷ links) db =
      remove_links list_id links (remove_meal_contributions list_id link.id db)

  -- The contributions of these plan-meals leave the active list.
  unfoldable pub remove_from_active : (ℕ → ℕ) → ℕ → List PlanMeal → Db Q → Db Q
  unfolding get_active_list remove_links
  remove_from_active uuid4 hh links db =
      let (l, db') = get_active_list uuid4 hh db in remove_links l.id links db'

  unfoldable pub set_archived : ℕ → ℕ → Db Q → Db Q
  unfolding update_first
  set_archived now plan_id db = record db {
    plans =
        update_first (λ p. p.id == plan_id)
          (λ p. record p { status = archived; archived_at = some now }) db.plans;
  }

  unfoldable pub remove_meal : (ℕ → ℕ) → ℕ → ℕ → ℕ → Db Q → Result PlanError (Db Q)
  unfolding get_plan get_plan_meal remove_from_active delete_plan_meal
  remove_meal uuid4 hh plan_id plan_meal_id db = do
    plan ← or_error plan_not_found (get_plan hh plan_id db.plans)
    link ← get_plan_meal plan.id plan_meal_id db.plan_meals
    ok (
        delete_plan_meal link.id
          (if is_archived plan.status then db else remove_from_active uuid4 hh (link ∷ []) db))

  -- `plan_meal.cooked_at = at`
  unfoldable pub set_cooked_at : PlanMeal → Option ℕ → Db Q → Db Q
  unfolding update_first
  set_cooked_at link at db = record db {
    plan_meals =
        update_first (λ m. m.id == link.id) (λ m. record m { cooked_at = at }) db.plan_meals;
  }

  unfoldable pub mark_cooked :
      ⦃amount : Amount Q⦄ → ℕ → ℕ → ℕ → ℕ → Option ℕ → Db Q → Result PlanError (Db Q)
  unfolding get_plan get_plan_meal get_meal set_cooked_at record_cooked
  mark_cooked now hh plan_id plan_meal_id user_id db = do
    plan ← or_error plan_not_found (get_plan hh plan_id db.plans)
    link ← get_plan_meal plan.id plan_meal_id db.plan_meals
    elim link.cooked_at [
      | some _ ↦ ok db
      | none ↦
          let ticked = set_cooked_at link (some now) db in
          elim (get_meal hh link.meal_id db.meal_rows) [
            | none ↦ ok ticked
            | some m ↦
                or_error cooked_at_missing
                  (record_cooked now hh (record link { cooked_at = some now }) m user_id ticked)
          ]
    ]

  unfoldable pub undo_mark_cooked : ℕ → ℕ → ℕ → ℕ → Db Q → Result PlanError (Db Q)
  unfolding get_plan get_plan_meal set_cooked_at undo_cooked
  undo_mark_cooked now hh plan_id plan_meal_id db = do
    plan ← or_error plan_not_found (get_plan hh plan_id db.plans)
    link ← get_plan_meal plan.id plan_meal_id db.plan_meals
    elim link.cooked_at [
      | none ↦ ok db
      | some _ ↦ ok (undo_cooked now link (set_cooked_at link none db))
    ]

  unfoldable pub archive_plan : (ℕ → ℕ) → ℕ → ℕ → ℕ → Db Q → Result PlanError (Db Q)
  unfolding get_plan remove_from_active meal_links set_archived
  archive_plan uuid4 now hh plan_id db = do
    plan ← or_error plan_not_found (get_plan hh plan_id db.plans)
    ok (
        if is_archived plan.status
        then db
        else set_archived now plan.id
            (remove_from_active uuid4 hh (meal_links plan.id db.plan_meals) db))

module _ {Q : Type 0} ⦃amount : Amount Q⦄ (uuid4 : ℕ → ℕ) (s : Settings) (table : Table)
    (clock : Clock) (hh : ℕ) where
  -- `db.add(plan_meal)`, and its contributions if the plan is active
  unfoldable pub insert_plan_meal : Plan → Meal Q → Db Q → Db Q
  unfolding get_active_list add_meal_contributions
  insert_plan_meal plan m db =
      let fresh : PlanMeal = record {
        id = uuid4 db.drawn;
        plan_id = plan.id;
        meal_id = m.id;
        cooked_at = none;
      } in
      let added = record db { plan_meals = db.plan_meals ++ (fresh ∷ []); drawn = suc db.drawn } in
      if is_archived plan.status
      then added
      else (let (l, db') = get_active_list uuid4 hh added in
          add_meal_contributions uuid4 l.id fresh.id m db')

  unfoldable pub add_meal_to_plan : Plan → ℕ → Db Q → Result PlanError (Db Q)
  unfolding get_meal any insert_plan_meal
  add_meal_to_plan plan meal_id db = do
    m ← or_error unknown_meal (get_meal hh meal_id db.meal_rows)
    raise_if (any (λ x. x.plan_id == plan.id && x.meal_id == meal_id) db.plan_meals) already_in_plan
    or_limited (enforce s table clock db hh plan_meals 1 none (some plan.id))
    ok (insert_plan_meal plan m db)

  unfoldable pub add_meal : ℕ → ℕ → Db Q → Result PlanError (Db Q)
  unfolding get_plan add_meal_to_plan
  add_meal plan_id meal_id db = do
    plan ← or_error plan_not_found (get_plan hh plan_id db.plans)
    raise_if (is_archived plan.status) plan_is_archived
    add_meal_to_plan plan meal_id db

  -- The loop over the links of the plan that is copied.
  unfoldable pub copy_meals : Plan → List PlanMeal → Db Q → Result PlanError (Db Q)
  unfolding add_meal_to_plan
  copy_meals plan [] db = ok db
  copy_meals plan (link ∷ links) db = do
    db' ← add_meal_to_plan plan link.meal_id db
    copy_meals plan links db'

  -- The label is given as it is stripped.
  unfoldable pub create_plan : String → Option ℕ → Option ℕ → Db Q → Result PlanError (Db Q)
  unfolding get_plan copy_meals meal_links
  create_plan label starts_on copy_from_plan_id db = do
    or_limited (enforce s table clock db hh plans 1 none none)
    let fresh : Plan = record {
      id = uuid4 db.drawn;
      household_id = hh;
      label = label;
      starts_on = starts_on;
      status = active;
      archived_at = none;
    }
    let added : Db Q = record db { plans = db.plans ++ (fresh ∷ []); drawn = suc db.drawn }
    elim copy_from_plan_id [
      | none ↦ ok added
      | some source_id ↦ do
        source ← or_error copied_plan_not_found (get_plan hh source_id added.plans)
        copy_meals fresh (meal_links source.id added.plan_meals) added
    ]
