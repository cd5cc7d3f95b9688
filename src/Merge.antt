-- ===== src/Merge.antt =====
-- backend/app/services/ingredient_merge.py: folding duplicate ingredients together.
pub mod Weights
pub mod Waiting
pub mod Contributions
use meals.Prelude.{
  ℕ, suc, ◌+◌, Bool, true, false, ◌&&◌, ◌||◌, not, Option, none, some, List, [], ◌∷◌, ◌++◌, map,
  keep, find, update_first, update_where, erase_first, ◌==◌, nat_eq, string_eq, option_eq,
  if◌then◌else◌, Result, ok, err,
}
use meals.Models.{Db}
use meals.Models.Catalog.{Ingredient, Recipe, RecipeIngredient}
use meals.Models.Planning.{Meal, MealIngredient}
use meals.Models.Shopping.{ListItem}

pub data MergeError : Type 0 where
  ingredient_not_found : MergeError

module _ {Q : Type 0} where
  -- `_repoint` of the lines of recipes and of meals.
  unfoldable pub repoint_recipe : ℕ → ℕ → Recipe Q → Recipe Q
  unfolding update_where
  repoint_recipe from_id to_id r = record r {
    ingredient_links =
        update_where (λ l. l.ingredient_id == from_id) (λ l. record l { ingredient_id = to_id })
          r.ingredient_links;
  }

  unfoldable pub repoint_meal : ℕ → ℕ → Meal Q → Meal Q
  unfolding update_where
  repoint_meal from_id to_id m = record m {
    ingredient_links =
        update_where (λ l. l.ingredient_id == from_id) (λ l. record l { ingredient_id = to_id })
          m.ingredient_links;
  }

  -- The line that a moving line collides with.
  unfoldable pub is_target : ℕ → ListItem Q → ListItem Q → Bool
  is_target to_id moving other =
      other.list_id == moving.list_id
      && other.ingredient_id == to_id
      && other.unit == moving.unit
      && not (other.id == moving.id)

  unfoldable pub absorb : ListItem Q → ListItem Q → ListItem Q
  absorb moving target = record target {
    checked = target.checked && moving.checked;
    excluded = target.excluded && moving.excluded;
    staple_needed = target.staple_needed || moving.staple_needed;
    sources = target.sources ++ moving.sources;
  }

  -- One round of the loop of `_merge_list_items`.
  unfoldable pub merge_line : ℕ → ListItem Q → List (ListItem Q) → List (ListItem Q)
  unfolding is_target absorb find update_first erase_first
  merge_line to_id moving items = elim (find (is_target to_id moving) items) [
    | none ↦ update_first (λ i. i.id == moving.id) (λ i. record i { ingredient_id = to_id }) items
    | some _ ↦
        erase_first (λ i. i.id == moving.id)
          (update_first (is_target to_id moving) (absorb moving) items)
  ]

  unfoldable pub merge_lines : ℕ → List (ListItem Q) → List (ListItem Q) → List (ListItem Q)
  unfolding merge_line
  merge_lines to_id [] items = items
  merge_lines to_id (moving ∷ rest) items = merge_lines to_id rest (merge_line to_id moving items)

  unfoldable pub merge_list_items : ℕ → ℕ → List (ListItem Q) → List (ListItem Q)
  unfolding merge_lines keep
  merge_list_items from_id to_id items =
      merge_lines to_id (keep (λ i. i.ingredient_id == from_id) items) items

  -- One round of the loop of `merge_ingredients`, for a duplicate that is not the keeper.
  unfoldable pub fold_into : Ingredient → Ingredient → Db Q → Db Q
  unfolding repoint_recipe repoint_meal merge_list_items erase_first
  fold_into keeper duplicate db = record db {
    recipes = map (repoint_recipe duplicate.id keeper.id) db.recipes;
    meal_rows = map (repoint_meal duplicate.id keeper.id) db.meal_rows;
    list_items = merge_list_items duplicate.id keeper.id db.list_items;
    ingredients = erase_first (λ i. i.id == duplicate.id) db.ingredients;
  }

  -- The number of ingredients absorbed, and the database; a refusal leaves nothing written.
  unfoldable pub merge_ingredients :
      ℕ → Ingredient → List Ingredient → ℕ → Db Q → Result MergeError (ℕ × Db Q)
  unfolding fold_into
  merge_ingredients household_id keeper [] absorbed db = ok (absorbed, db)
  merge_ingredients household_id keeper (duplicate ∷ duplicates) absorbed db =
      let skipped = merge_ingredients household_id keeper duplicates absorbed db in
      let merged =
        merge_ingredients household_id keeper duplicates (suc absorbed)
          (fold_into keeper duplicate db) in
      if not (duplicate.household_id == household_id)
      then err ingredient_not_found
      else if duplicate.id == keeper.id
      then skipped
      else merged
