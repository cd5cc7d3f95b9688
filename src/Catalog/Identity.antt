-- ===== src/Catalog/Identity.antt =====
-- One identity is one ingredient, however its name is written.
use meals.Prelude.{
  ℕ, ◌≡◌, String, Bool, true, none, some, List, [], ◌∷◌, ◌++◌, arith, find, find-append, nat_eq,
  string_eq, option_eq, beq_refl, ok,
}
use meals.Models.{Db}
use meals.Models.Catalog.{Ingredient}
use meals.Limits.Tiers.{Table}
use meals.Limits.Settings.{Settings}
use meals.Limits.Enforce.{Clock}
use meals.Catalog.{
  Naming, identity_of_name, has_key, find_ingredient, new_ingredient, get_or_create_ingredient,
}

module _ (n : Naming) (id hh : ℕ) (name : String) where
  has_key-new_ingredient : has_key hh (identity_of_name n name) (new_ingredient n id hh name) ≡ true
  unfolding has_key new_ingredient
  has_key-new_ingredient = ground (arith, beq_refl hh, beq_refl (identity_of_name n name))

  find-new_ingredient :
      (rows : List Ingredient)
      → find_ingredient hh (identity_of_name n name) rows ≡ none
      → find_ingredient hh (identity_of_name n name) (rows ++ (new_ingredient n id hh name ∷ []))
        ≡ some (new_ingredient n id hh name)
  unfolding find_ingredient find
  find-new_ingredient rows h = ground (
    arith,
    has_key-new_ingredient,
    find-append (has_key hh (identity_of_name n name)) rows (new_ingredient n id hh name ∷ []),
  )

module _ {Q : Type 0} (uuid4 : ℕ → ℕ) (s : Settings) (table : Table) (clock : Clock) (n : Naming)
    (hh : ℕ) where
  -- Once a name has landed on an ingredient, every name with the same identity lands on it too,
  -- without a new row and whatever the limits say.
  pub get_or_create_again :
      (name₁ name₂ : String) (counts₁ counts₂ : Bool) (db db' : Db Q) (i : Ingredient)
      → get_or_create_ingredient uuid4 s table clock n hh name₁ counts₁ db ≡ ok (i, db')
      → identity_of_name n name₁ ≡ identity_of_name n name₂
      → get_or_create_ingredient uuid4 s table clock n hh name₂ counts₂ db' ≡ ok (i, db')
  unfolding get_or_create_ingredient
  get_or_create_again name₁ name₂ counts₁ counts₂ db db' i h same =
      ground (arith, find-new_ingredient n (uuid4 db.drawn) hh name₁ db.ingredients)
