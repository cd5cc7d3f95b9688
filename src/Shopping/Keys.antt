-- ===== src/Shopping/Keys.antt =====
-- A line is identified by its list, its ingredient and its unit.
use meals.Prelude.{
  ℕ, ◌≡◌, refl, String, Bool, true, false, ◌&&◌, Option, List, [], ◌∷◌, arith, any, ◌==◌, nat_eq,
  string_eq, option_eq, option_beq_iff, if◌then◌else◌,
}
use meals.Models.Shopping.{ListItem, ListItemSource}
use meals.Shopping.{is_line, put_source, surface, new_line}

unfoldable pub same_key : ℕ → ℕ → Option String → ℕ → ℕ → Option String → Bool
same_key l i u l' i' u' = l == l' && i == i' && u == u'

module _ {Q : Type 0} where
  -- No two lines have one key.
  abbrev pub IsUnique : List (ListItem Q) → Type 0
  IsUnique [] = Unit
  IsUnique (x ∷ xs) = (any (is_line x.list_id x.ingredient_id x.unit) xs ≡ false) × IsUnique xs

  pub is_line_of_line :
      (l i l' i' : ℕ) (u u' : Option String) (x : ListItem Q)
      → is_line l i u x ≡ true
      → is_line l' i' u' x ≡ same_key l i u l' i' u'
  unfolding is_line same_key
  is_line_of_line l i l' i' u u' x h = ground (arith, option_beq_iff x.unit u)

  pub put_source-cons :
      (id l i : ℕ) (u : Option String) (s : ListItemSource Q) (x : ListItem Q)
      (xs : List (ListItem Q))
      → put_source id l i u s (x ∷ xs)
        ≡ (if is_line l i u x then surface s x ∷ xs else x ∷ put_source id l i u s xs)
  unfolding put_source
  put_source-cons id l i u s x xs = ground arith

  pub line_key :
      (l i : ℕ) (u : Option String) (x : ListItem Q)
      → is_line l i u x ≡ true
      → (x.list_id ≡ l) × (x.ingredient_id ≡ i) × (x.unit ≡ u)
  unfolding is_line
  line_key l i u x h = ground (arith, option_beq_iff x.unit u)

  pub any_of_line :
      (l i : ℕ) (u : Option String) (x : ListItem Q) (xs : List (ListItem Q))
      → is_line l i u x ≡ true
      → any (is_line x.list_id x.ingredient_id x.unit) xs ≡ any (is_line l i u) xs
  any_of_line l i u x xs h = let (a, b, c) = line_key l i u x h in cc

  pub is_line-new_line :
      (id l i l' i' : ℕ) (u u' : Option String) (s : ListItemSource Q)
      → is_line l' i' u' (new_line id l i u s) ≡ same_key l i u l' i' u'
  unfolding is_line new_line same_key
  is_line-new_line id l i l' i' u u' s = refl

  pub same_key-line :
      (l i : ℕ) (u : Option String) (x : ListItem Q)
      → same_key l i u x.list_id x.ingredient_id x.unit ≡ is_line l i u x
  unfolding is_line same_key
  same_key-line l i u x = ground (arith, option_beq_iff x.unit u, option_beq_iff u x.unit)
