-- ===== src/Accounts/Tables.antt =====
-- backend/app/services/accounts.py: its deletes, table by table, with what the foreign keys of
-- backend/app/models declare as `ondelete`.
use meals.Prelude.{
  ℕ, Bool, false, ◌&&◌, not, Option, none, some, map, keep, any, ◌==◌, nat_eq, if◌then◌else◌,
}
use meals.Models.{Db}
use meals.Models.Users.{Household, User, HouseholdInvite}
use meals.Models.Catalog.{Recipe}
use meals.Models.Planning.{Meal, PlanMeal, CookedEvent}
use meals.Models.Shopping.{ListItem, ListItemSource}
use meals.Models.Freezer.{FreezerItem}
use meals.Models.Billing.{BillingEvent}

-- SET NULL
abbrev pub set_null : (ℕ → Bool) → Option ℕ → Option ℕ
set_null gone none = none
set_null gone (some id) = if gone id then none else some id

-- Whether a key that may be missing is one of those that are gone.
abbrev pub points_at : (ℕ → Bool) → Option ℕ → Bool
points_at gone none = false
points_at gone (some id) = gone id

module _ {Q : Type 0} where
  unfoldable pub delete_cooked_events : ℕ → Db Q → Db Q
  unfolding keep
  delete_cooked_events hh db = record db {
    cooked_events = keep (λ e. not (e.household_id == hh)) db.cooked_events;
  }

  unfoldable pub delete_freezer_items : ℕ → Db Q → Db Q
  unfolding keep
  delete_freezer_items hh db = record db {
    freezer_items = keep (λ i. not (i.household_id == hh)) db.freezer_items;
  }

  -- The lines of a list, with their contributions, go with the list.
  unfoldable pub delete_shopping_lists : ℕ → Db Q → Db Q
  unfolding keep any
  delete_shopping_lists hh db =
      let gone : ℕ → Bool = λ id. any (λ l. l.id == id && l.household_id == hh) db.shopping_lists in
      record db {
        shopping_lists = keep (λ l. not (l.household_id == hh)) db.shopping_lists;
        list_items = keep (λ i. not (gone i.list_id)) db.list_items;
      }

  -- The contributions to the lines go with the planned meal; the history forgets it.
  unfoldable pub delete_plan_meals : (PlanMeal → Bool) → Db Q → Db Q
  unfolding keep any
  delete_plan_meals p db =
      let gone : ℕ → Bool = λ id. any (λ m. m.id == id && p m) db.plan_meals in
      record db {
        plan_meals = keep (λ m. not (p m)) db.plan_meals;
        list_items =
            map
              (λ (i : ListItem Q). record i {
                sources = keep (λ s. not (points_at gone s.plan_meal_id)) i.sources;
              })
              db.list_items;
        cooked_events =
            map (λ (e : CookedEvent Q). record e { plan_meal_id = set_null gone e.plan_meal_id })
              db.cooked_events;
      }

  unfoldable pub delete_plans : ℕ → Db Q → Db Q
  unfolding keep any delete_plan_meals
  delete_plans hh db =
      let gone : ℕ → Bool = λ id. any (λ p. p.id == id && p.household_id == hh) db.plans in
      delete_plan_meals (λ m. gone m.plan_id)
        (record db { plans = keep (λ p. not (p.household_id == hh)) db.plans })

  unfoldable pub delete_meals : ℕ → Db Q → Db Q
  unfolding keep any delete_plan_meals
  delete_meals hh db =
      let gone : ℕ → Bool = λ id. any (λ m. m.id == id && m.household_id == hh) db.meal_rows in
      delete_plan_meals (λ m. gone m.meal_id)
        (record db {
          meal_rows = keep (λ m. not (m.household_id == hh)) db.meal_rows;
          cooked_events =
              map (λ (e : CookedEvent Q). record e { meal_id = set_null gone e.meal_id })
                db.cooked_events;
          freezer_items =
              map (λ (i : FreezerItem). record i { meal_id = set_null gone i.meal_id })
                db.freezer_items;
        })

  unfoldable pub delete_recipes : ℕ → Db Q → Db Q
  unfolding keep any
  delete_recipes hh db =
      let gone : ℕ → Bool = λ id. any (λ r. r.id == id && r.household_id == hh) db.recipes in
      let forget : ListItemSource Q → ListItemSource Q =
        λ s. record s { recipe_id = set_null gone s.recipe_id } in
      record db {
        recipes = keep (λ r. not (r.household_id == hh)) db.recipes;
        meal_rows =
            map
              (λ (m : Meal Q). record m {
                recipe_links = keep (λ l. not (gone l.recipe_id)) m.recipe_links;
              })
              db.meal_rows;
        cooked_events =
            map (λ (e : CookedEvent Q). record e { recipe_id = set_null gone e.recipe_id })
              db.cooked_events;
        freezer_items =
            map (λ (i : FreezerItem). record i { recipe_id = set_null gone i.recipe_id })
              db.freezer_items;
        list_items =
            map (λ (i : ListItem Q). record i { sources = map forget i.sources }) db.list_items;
      }

  unfoldable pub delete_ingredients : ℕ → Db Q → Db Q
  unfolding keep
  delete_ingredients hh db = record db {
    ingredients = keep (λ i. not (i.household_id == hh)) db.ingredients;
  }

  unfoldable pub delete_supermarkets : ℕ → Db Q → Db Q
  unfolding keep
  delete_supermarkets hh db = record db {
    supermarkets = keep (λ s. not (s.household_id == hh)) db.supermarkets;
  }

  unfoldable pub delete_invites : ℕ → Db Q → Db Q
  unfolding keep
  delete_invites hh db = record db {
    household_invites = keep (λ i. not (i.household_id == hh)) db.household_invites;
  }

  -- The tokens go with their user; what the user made or led forgets them.
  unfoldable pub delete_users : (User → Bool) → Db Q → Db Q
  unfolding keep any
  delete_users p db =
      let gone : ℕ → Bool = λ id. any (λ u. u.id == id && p u) db.users in
      record db {
        users = keep (λ u. not (p u)) db.users;
        auth_tokens = keep (λ t. not (gone t.user_id)) db.auth_tokens;
        households =
            map (λ (h : Household). record h { lead_user_id = set_null gone h.lead_user_id })
              db.households;
        recipes =
            map (λ (r : Recipe Q). record r { created_by = set_null gone r.created_by }) db.recipes;
        cooked_events =
            map (λ (e : CookedEvent Q). record e { created_by = set_null gone e.created_by })
              db.cooked_events;
        freezer_items =
            map (λ (i : FreezerItem). record i { created_by = set_null gone i.created_by })
              db.freezer_items;
        household_invites =
            map
              (λ (i : HouseholdInvite). record i {
                created_by_user_id = set_null gone i.created_by_user_id;
                accepted_by_user_id = set_null gone i.accepted_by_user_id;
              })
              db.household_invites;
      }

  -- The household's ledger rows stay and forget it; its invitations go with it.
  unfoldable pub delete_household_row : ℕ → Db Q → Db Q
  unfolding keep
  delete_household_row hh db = record db {
    households = keep (λ h. not (h.id == hh)) db.households;
    household_invites = keep (λ i. not (i.household_id == hh)) db.household_invites;
    billing_events =
        map
          (λ (e : BillingEvent). record e {
            household_id = set_null (λ id. id == hh) e.household_id;
          })
          db.billing_events;
  }
