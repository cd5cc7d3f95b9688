-- ===== src/Shopping/Adding.antt =====
-- What adding a meal's contributions does to the lists.
use mathlib.Core.List.{append-nil, append_assoc}
use meals.Prelude.{
  ℕ, ◌≡◌, String, Bool, ◌&&◌, Option, List, [], ◌∷◌, ◌++◌, map, arith, keep, ◌==◌, nat_eq,
  string_eq, option_eq, if◌then◌else◌,
}
use meals.Amounts.{Amount}
use meals.Models.{Db}
use meals.Models.Planning.{Meal}
use meals.Shopping.{
  Contribution, meal_source, sources_at, add_contribution, add_contributions,
  add_meal_contributions, meal_contributions,
}
use meals.Shopping.Keys.{same_key}
use meals.Shopping.Lines.{IsSound, sources_at-put_source, put_source-IsSound}

-- The contributions of a meal to an ingredient in a unit.
unfoldable pub needs : {Q : Type 0} → ℕ → Option String → Contribution Q → Bool
needs i u c = c.ingredient_id == i && c.unit == u

module _ {Q : Type 0} (uuid4 : ℕ → ℕ) (l p : ℕ) where
  add_contributions-IsSound :
      (db : Db Q) (cs : List (Contribution Q))
      → IsSound db.list_items
      → IsSound (add_contributions uuid4 l p db cs).list_items
  unfolding add_contributions
  add_contributions-IsSound db [] h = h
  add_contributions-IsSound db (c ∷ cs) h =
      add_contributions-IsSound (add_contribution uuid4 l p db c) cs (
        put_source-IsSound (uuid4 db.drawn) l c.ingredient_id c.unit (meal_source p c) db.list_items
          h)

  sources_at-add_contributions :
      (l' i' : ℕ) (u' : Option String) (db : Db Q) (cs : List (Contribution Q))
      → IsSound db.list_items
      → sources_at l' i' u' (add_contributions uuid4 l p db cs).list_items
        ≡ sources_at l' i' u' db.list_items
          ++ (if l == l' then map (meal_source p) (keep (needs i' u') cs) else [])
  unfolding add_contributions keep needs same_key
  sources_at-add_contributions l' i' u' db [] h =
      ground (arith, append-nil (sources_at l' i' u' db.list_items))
  sources_at-add_contributions l' i' u' db (c ∷ cs) h =
      let id = uuid4 db.drawn in
      let s = meal_source p c in
      let rest =
        sources_at-add_contributions l' i' u' (add_contribution uuid4 l p db c) cs
          (put_source-IsSound id l c.ingredient_id c.unit s db.list_items h) in
      let first = sources_at-put_source id l c.ingredient_id l' i' c.unit u' s db.list_items h.0 in
      ground (
        arith,
        append-nil (sources_at l' i' u' db.list_items),
        append-nil (sources_at l' i' u' db.list_items ++ (s ∷ [])),
        append_assoc (sources_at l' i' u' db.list_items) (s ∷ [])
            (map (meal_source p) (keep (needs i' u') cs)),
      )

module _ {Q : Type 0} ⦃amount : Amount Q⦄ (uuid4 : ℕ → ℕ) (l p : ℕ) (meal : Meal Q) (db : Db Q)
    (sound : IsSound db.list_items) where
  -- Adding a meal to a list with one line for each key and a reason for each line keeps it so.
  pub add_meal_contributions-IsSound : IsSound (add_meal_contributions uuid4 l p meal db).list_items
  unfolding add_meal_contributions
  add_meal_contributions-IsSound =
      add_contributions-IsSound uuid4 l p db (meal_contributions db.recipes meal) sound

  -- On lists with one line for each key and a reason for each line, behind the contributions that
  -- an ingredient and a unit had on the list stand those of the meal, one for each of its recipe
  -- lines and loose ingredients in that unit and in their order; other lists are untouched.
  pub sources_at-add_meal_contributions :
      (l' i' : ℕ) (u' : Option String)
      → sources_at l' i' u' (add_meal_contributions uuid4 l p meal db).list_items
        ≡ sources_at l' i' u' db.list_items
          ++ (if l == l'
              then map (meal_source p) (keep (needs i' u') (meal_contributions db.recipes meal))
              else [])
  unfolding add_meal_contributions
  sources_at-add_meal_contributions l' i' u' =
      sources_at-add_contributions uuid4 l p l' i' u' db (meal_contributions db.recipes meal) sound
