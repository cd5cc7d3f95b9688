-- ===== src/Catalog.antt =====
-- backend/app/services/catalog.py: which ingredient row a written name lands on.
pub mod Identity
use meals.Prelude.{
  ℕ, suc, String, Bool, true, false, ◌&&◌, Option, none, some, List, [], ◌∷◌, ◌++◌, find, ◌==◌,
  nat_eq, string_eq, option_eq, if◌then◌else◌, Result, ok, err, ◌>>=◌, ◌>>◌,
}
use meals.Models.{Db}
use meals.Models.Catalog.{Ingredient}
use meals.Limits.Tiers.{Table, ingredients}
use meals.Limits.Settings.{Settings}
use meals.Limits.Enforce.{Clock, EnforceError, enforce}

-- What a name is folded to, and the two folds of Python's text that stand beside it.
pub record Naming : Type 0 where
  -- `canonical_ingredient_name`
  pub canonical_ingredient_name : String → String
  -- `guess_aisle`
  pub guess_aisle : String → String
  -- `" ".join(name.split())`
  pub join_split : String → String
  -- `name.lower()`
  pub lower : String → String

-- `a or b` on texts
abbrev pub or_text : String → String → String
or_text a b = if a == "" then b else a

unfoldable pub identity_of_name : Naming → String → String
identity_of_name n name = or_text (n.canonical_ingredient_name name) (n.join_split (n.lower name))

unfoldable pub has_key : ℕ → String → Ingredient → Bool
has_key household_id canonical i =
    i.household_id == household_id && i.canonical_name == some canonical

-- A row without a key is found by its name.
unfoldable pub has_name : ℕ → String → Ingredient → Bool
has_name household_id canonical i =
    i.household_id == household_id && (i.canonical_name == none && i.name == canonical)

-- The query, ordered by `canonical_name IS NULL` first: rows with a key before rows without.
unfoldable pub find_ingredient : ℕ → String → List Ingredient → Option Ingredient
unfolding find has_key has_name
find_ingredient household_id canonical rows = elim (find (has_key household_id canonical) rows) [
  | some i ↦ some i
  | none ↦ find (has_name household_id canonical) rows
]

unfoldable pub new_ingredient : Naming → ℕ → ℕ → String → Ingredient
unfolding identity_of_name
new_ingredient n id household_id name =
    let canonical = identity_of_name n name in
    record {
      id = id;
      household_id = household_id;
      name = or_text (n.join_split name) canonical;
      canonical_name = some canonical;
      aisle = n.guess_aisle canonical;
      is_staple = false;
      value_tier = "any";
      value_note = none;
    }

module _ {Q : Type 0} (uuid4 : ℕ → ℕ) where
  unfoldable pub insert_ingredient : Naming → ℕ → String → Db Q → Ingredient × Db Q
  unfolding new_ingredient
  insert_ingredient n household_id name db =
      let fresh = new_ingredient n (uuid4 db.drawn) household_id name in
      (fresh, record db { ingredients = db.ingredients ++ (fresh ∷ []); drawn = suc db.drawn })

  unfoldable pub get_or_create_ingredient :
      Settings
      → Table
      → Clock
      → Naming
      → ℕ
      → String
      → Bool
      → Db Q
      → Result EnforceError (Ingredient × Db Q)
  unfolding find_ingredient insert_ingredient
  get_or_create_ingredient s table clock n household_id name count_against_limits db =
      elim (find_ingredient household_id (identity_of_name n name) db.ingredients) [
        | some i ↦ ok (i, db)
        | none ↦ do
          (if count_against_limits
              then enforce s table clock db household_id ingredients 1 none none
              else ok tt)
          ok (insert_ingredient n household_id name db)
      ]
