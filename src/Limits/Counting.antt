-- ===== src/Limits/Counting.antt =====
-- backend/app/limits.py: how each resource is counted.
use meals.Prelude.{
  ℕ, Bool, true, false, ◌&&◌, not, ltb, Option, none, some, List, length, keep, find, any, ◌==◌,
  nat_eq, string_eq, option_eq, if◌then◌else◌,
}
use meals.Models.{Db}
use meals.Models.Users.{Household, User, AuthToken}
use meals.Models.Planning.{PlanStatus, active, archived}
use meals.Limits.Tiers.{
  Resource, members, recipes, ingredients, meal_rows, meal_lines, plans, plan_meals, supermarkets,
  freezer_items, api_tokens, ingests_per_month,
}

abbrev pub is_archived : PlanStatus → Bool
is_archived active = false
is_archived archived = true

-- `.join(User, AuthToken.user_id == User.id).where(User.household_id == household_id)`
unfoldable pub belongs_to : List User → ℕ → AuthToken → Bool
unfolding any
belongs_to users household_id t =
    any (λ u. u.id == t.user_id && u.household_id == household_id) users

-- The count of the stored period, with the first instant of the current month.
unfoldable pub ingests_this_month : ℕ → Household → ℕ
ingests_this_month month h = elim h.ingest_period_started_at [
  | none ↦ 0
  | some started ↦ if ltb started month then 0 else h.ingests_used
]

module _ {Q : Type 0} where
  unfoldable pub count_ingests : ℕ → Db Q → ℕ → ℕ
  unfolding find ingests_this_month
  count_ingests month db household_id = elim (find (λ h. h.id == household_id) db.households) [
    | none ↦ 0
    | some h ↦ ingests_this_month month h
  ]

  -- `RESOURCES[resource].count`; `none` for the one resource without a counter.
  unfoldable pub count : ℕ → Resource → Db Q → ℕ → Option ℕ → Option ℕ
  unfolding keep belongs_to count_ingests
  count month members db hh within = some (length (keep (λ u. u.household_id == hh) db.users))
  count month recipes db hh within = some (length (keep (λ r. r.household_id == hh) db.recipes))
  count month ingredients db hh within =
      some (length (keep (λ i. i.household_id == hh) db.ingredients))
  count month meal_rows db hh within = some (length (keep (λ m. m.household_id == hh) db.meal_rows))
  count month meal_lines db hh within = none
  count month plans db hh within =
      some (length (keep (λ p. p.household_id == hh && not (is_archived p.status)) db.plans))
  count month plan_meals db hh within =
      some (length (keep (λ m. some m.plan_id == within) db.plan_meals))
  count month supermarkets db hh within =
      some (length (keep (λ s. s.household_id == hh) db.supermarkets))
  count month freezer_items db hh within =
      some (length (keep (λ i. i.household_id == hh) db.freezer_items))
  count month api_tokens db hh within =
      some (length (keep (λ t. belongs_to db.users hh t && t.kind == "api") db.auth_tokens))
  count month ingests_per_month db hh within = some (count_ingests month db hh)

-- `_Spec.household_wide`
unfoldable pub household_wide : Resource → Bool
household_wide meal_lines = false
household_wide plan_meals = false
household_wide _ = true
