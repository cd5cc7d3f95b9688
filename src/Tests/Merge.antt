-- ===== src/Tests/Merge.antt =====
-- Runs of the merge of ingredients.
use meals.Prelude.{ℕ, ◌+◌, ◌≡◌, refl, true, false, none, some, [], ◌∷◌}
use meals.Models.{Db}
use meals.Models.Catalog.{Ingredient}
use meals.Merge.{fold_into}
use meals.Merge.Contributions.{total_at, total_at-fold_into}
use meals.Merge.Waiting.{distinct_lines}
use meals.Tests.Data.{store, line, need}

abbrev tomato : Ingredient
tomato = record {
  id = 50;
  household_id = 1;
  name = "tomato";
  canonical_name = some "tomato";
  aisle = "produce";
  is_staple = false;
  value_tier = "any";
  value_note = none;
}

abbrev tomatoes : Ingredient
tomatoes = record tomato { id = 51; name = "tomatoes"; canonical_name = none }

-- Two lines of one unit that collide, and one that moves as it is.
abbrev doubled : Db ℕ
doubled = record store {
  ingredients = tomato ∷ tomatoes ∷ [];
  list_items =
      line 60 50 (some "tin") true (need none 1 ∷ [])
      ∷ line 61 51 (some "tin") false (need (some 5) 2 ∷ need (some 6) 4 ∷ [])
      ∷ line 62 51 none false (need (some 5) 3 ∷ [])
      ∷ [];
}

total_at-fold_into_example :
    total_at (λ _. true) 7 50 (some "tin") (fold_into tomato tomatoes doubled).list_items
    ≡ total_at (λ _. true) 7 50 (some "tin") doubled.list_items
      + total_at (λ _. true) 7 51 (some "tin") doubled.list_items
unfolding distinct_lines
total_at-fold_into_example =
    total_at-fold_into (λ _. true) tomato tomatoes doubled 7 50 (some "tin") refl refl

run_fold_into : total_at (λ _. true) 7 50 (some "tin") doubled.list_items ≡ 1
unfolding total_at
run_fold_into = refl
