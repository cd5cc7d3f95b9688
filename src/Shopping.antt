-- ===== src/Shopping.antt =====
-- backend/app/services/shopping.py: the lists of a household and their contributions.
pub mod Lines
pub mod Keys
pub mod Adding
pub mod Removal
pub mod RoundTrip
pub mod Adhoc
pub mod Requests
pub mod Replay
pub mod Kept
use meals.Prelude.{
  ℕ, suc, ◌+◌, String, Bool, true, false, ◌&&◌, not, Option, none, some, List, [], ◌∷◌, ◌++◌, map,
  find, keep, any, all, update_first, ◌==◌, nat_eq, string_eq, option_eq, if◌then◌else◌,
}
use mathlib.Core.Option
use meals.Amounts.{Amount}
use meals.Models.{Db}
use meals.Models.Catalog.{Recipe, RecipeIngredient}
use meals.Models.Planning.{Meal, MealRecipe, MealIngredient}
use meals.Models.Shopping.{ShoppingList, ListStatus, active, archived, ListItem, ListItemSource}

abbrev pub is_active : ListStatus → Bool
is_active active = true
is_active archived = false

-- What a meal needs: one row for each recipe line and each loose ingredient.
pub record Contribution (Q : Type 0) : Type 0 where
  pub ingredient_id : ℕ
  pub quantity : Option Q
  pub unit : Option String
  pub recipe_id : Option ℕ

module _ {Q : Type 0} where
  -- The row that a query by (list, ingredient, unit) finds. The unit `None` is one more unit.
  unfoldable pub is_line : ℕ → ℕ → Option String → ListItem Q → Bool
  is_line list_id ingredient_id unit item =
      item.list_id == list_id && item.ingredient_id == ingredient_id && item.unit == unit

  -- A fresh need unticks the line that it lands on, and is the line's last contribution.
  unfoldable pub surface : ListItemSource Q → ListItem Q → ListItem Q
  surface s item = record item { checked = false; sources = item.sources ++ (s ∷ []) }

  unfoldable pub new_line : ℕ → ℕ → ℕ → Option String → ListItemSource Q → ListItem Q
  new_line id list_id ingredient_id unit s = record {
    id = id;
    list_id = list_id;
    ingredient_id = ingredient_id;
    unit = unit;
    checked = false;
    excluded = false;
    staple_needed = false;
    sources = s ∷ [];
  }

  -- `_find_item`, and then a new line, or the line that was found.
  unfoldable pub put_source :
      ℕ → ℕ → ℕ → Option String → ListItemSource Q → List (ListItem Q) → List (ListItem Q)
  unfolding find update_first is_line surface new_line
  put_source id list_id ingredient_id unit s items =
      elim (find (is_line list_id ingredient_id unit) items) [
        | none ↦ items ++ (new_line id list_id ingredient_id unit s ∷ [])
        | some _ ↦ update_first (is_line list_id ingredient_id unit) (surface s) items
      ]

  unfoldable pub has_line : ℕ → ℕ → Option String → List (ListItem Q) → Bool
  unfolding any
  has_line list_id ingredient_id unit items = any (is_line list_id ingredient_id unit) items

  abbrev pub meal_source : ℕ → Contribution Q → ListItemSource Q
  meal_source plan_meal_id c = record {
    plan_meal_id = some plan_meal_id;
    recipe_id = c.recipe_id;
    quantity = c.quantity;
    client_key = none;
  }

  -- `s.plan_meal_id == plan_meal_id`
  abbrev pub is_from : ℕ → ListItemSource Q → Bool
  is_from plan_meal_id s = s.plan_meal_id == some plan_meal_id

  abbrev pub is_adhoc : ListItemSource Q → Bool
  is_adhoc s = s.plan_meal_id == none

  abbrev pub has_sources : ListItem Q → Bool
  has_sources item = elim item.sources [ [] ↦ false | _ ∷ _ ↦ true ]

  -- `item.sources[:] = [s for s in item.sources if s.plan_meal_id != plan_meal_id]`
  unfoldable pub left : ℕ → ListItem Q → ListItem Q
  unfolding keep
  left plan_meal_id item = record item {
    sources = keep (λ s. not (is_from plan_meal_id s)) item.sources;
  }

  -- The lines of the list that the plan-meal contributes to lose its contributions, and go where
  -- none is left.
  unfoldable pub remove_sources : ℕ → ℕ → List (ListItem Q) → List (ListItem Q)
  unfolding any keep left
  remove_sources list_id plan_meal_id [] = []
  remove_sources list_id plan_meal_id (item ∷ items) =
      let rest = remove_sources list_id plan_meal_id items in
      if item.list_id == list_id && any (is_from plan_meal_id) item.sources
      then (if has_sources (left plan_meal_id item) then left plan_meal_id item ∷ rest else rest)
      else item ∷ rest

  -- `all(source.plan_meal_id is None for source in item.sources)`
  unfoldable pub is_adhoc_only : ListItem Q → Bool
  unfolding all
  is_adhoc_only item = all is_adhoc item.sources

  -- The contributions recorded for an ingredient and a unit on a list, over every line that has
  -- them: what the list says is needed, and why.
  unfoldable pub sources_at : ℕ → ℕ → Option String → List (ListItem Q) → List (ListItemSource Q)
  unfolding is_line
  sources_at list_id ingredient_id unit [] = []
  sources_at list_id ingredient_id unit (item ∷ items) =
      let rest = sources_at list_id ingredient_id unit items in
      if is_line list_id ingredient_id unit item then item.sources ++ rest else rest

module _ {Q : Type 0} ⦃amount : Amount Q⦄ where
  unfoldable pub recipe_contribution : MealRecipe Q → RecipeIngredient Q → Contribution Q
  recipe_contribution link line = record {
    ingredient_id = line.ingredient_id;
    quantity = Option.map (λ q. amount.times q link.scale) line.quantity;
    unit = line.unit;
    recipe_id = some link.recipe_id;
  }

  unfoldable pub loose_contribution : MealIngredient Q → Contribution Q
  loose_contribution loose = record {
    ingredient_id = loose.ingredient_id;
    quantity = loose.quantity;
    unit = loose.unit;
    recipe_id = none;
  }

  -- `recipe_link.recipe.ingredient_links`; the foreign key says that the recipe is there.
  unfoldable pub recipe_lines : List (Recipe Q) → MealRecipe Q → List (RecipeIngredient Q)
  unfolding find
  recipe_lines recipes link = elim (find (λ r. r.id == link.recipe_id) recipes) [
    | none ↦ []
    | some r ↦ r.ingredient_links
  ]

  unfoldable pub link_contributions : List (Recipe Q) → List (MealRecipe Q) → List (Contribution Q)
  unfolding recipe_contribution recipe_lines
  link_contributions recipes [] = []
  link_contributions recipes (link ∷ links) =
      map (recipe_contribution link) (recipe_lines recipes link) ++ link_contributions recipes links

  unfoldable pub meal_contributions : List (Recipe Q) → Meal Q → List (Contribution Q)
  unfolding link_contributions loose_contribution
  meal_contributions recipes meal =
      link_contributions recipes meal.recipe_links ++ map loose_contribution meal.ingredient_links

-- `uuid4 n` is the n-th id that `uuid.uuid4` gives.
module _ {Q : Type 0} (uuid4 : ℕ → ℕ) where
  unfoldable pub new_list : ℕ → Db Q → ShoppingList × Db Q
  new_list household_id db =
      let fresh : ShoppingList = record {
        id = uuid4 db.drawn;
        household_id = household_id;
        status = active;
        archived_at = none;
      } in
      (
        fresh,
        record db { shopping_lists = db.shopping_lists ++ (fresh ∷ []); drawn = suc db.drawn },
      )

  unfoldable pub get_active_list : ℕ → Db Q → ShoppingList × Db Q
  unfolding find new_list
  get_active_list household_id db =
      elim (find (λ l. l.household_id == household_id && is_active l.status) db.shopping_lists) [
        | some l ↦ (l, db)
        | none ↦ new_list household_id db
      ]

  -- One round of the loop of `add_meal_contributions`. An id is drawn for a new line only.
  unfoldable pub add_contribution : ℕ → ℕ → Db Q → Contribution Q → Db Q
  unfolding put_source has_line
  add_contribution list_id plan_meal_id db c = record db {
    list_items =
        put_source (uuid4 db.drawn) list_id c.ingredient_id c.unit (meal_source plan_meal_id c)
          db.list_items;
    drawn =
        if has_line list_id c.ingredient_id c.unit db.list_items then db.drawn else suc db.drawn;
  }

  unfoldable pub add_contributions : ℕ → ℕ → Db Q → List (Contribution Q) → Db Q
  unfolding add_contribution
  add_contributions list_id plan_meal_id db [] = db
  add_contributions list_id plan_meal_id db (c ∷ cs) =
      add_contributions list_id plan_meal_id (add_contribution list_id plan_meal_id db c) cs

  unfoldable pub add_meal_contributions : ⦃amount : Amount Q⦄ → ℕ → ℕ → Meal Q → Db Q → Db Q
  unfolding add_contributions meal_contributions
  add_meal_contributions list_id plan_meal_id meal db =
      add_contributions list_id plan_meal_id db (meal_contributions db.recipes meal)

module _ {Q : Type 0} where
  unfoldable pub remove_meal_contributions : ℕ → ℕ → Db Q → Db Q
  unfolding remove_sources
  remove_meal_contributions list_id plan_meal_id db = record db {
    list_items = remove_sources list_id plan_meal_id db.list_items;
  }
