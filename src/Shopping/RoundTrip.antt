-- ===== src/Shopping/RoundTrip.antt =====
-- Adding a meal and removing it again.
use mathlib.Core.List.{append-nil}
use meals.Prelude.{
  ℕ, ◌≡◌, refl, sym, ◌∙◌, ap, String, Bool, true, false, ◌&&◌, not, Option, List, [], ◌∷◌, ◌++◌,
  arith, keep, any, keep-append, keep_of_none, any-append, update_where, update_where_of_none, ◌==◌,
  nat_eq, string_eq, option_eq, if◌then◌else◌, Bool-cases, inl, inr, beq_refl, All,
}
use meals.Amounts.{Amount}
use meals.Models.{Db}
use meals.Models.Planning.{Meal}
use meals.Models.Shopping.{ListItem}
use meals.Shopping.{
  Contribution, is_line, is_from, left, has_sources, remove_sources, put_source, surface, new_line,
  meal_source, add_contribution, add_contributions, add_meal_contributions, meal_contributions,
  remove_meal_contributions,
}
use meals.Shopping.Keys.{line_key, any_of_line, put_source-cons}
use meals.Shopping.Lines.{IsSound, put_source-IsSound, put_source-nil}
use meals.Shopping.Removal.{any-remove_sources, is_line-left}

-- The line as it was, no longer ticked off.
unfoldable pub untick : {Q : Type 0} → ListItem Q → ListItem Q
untick item = record item { checked = false }

-- Every line of the list that the contributions land on, unticked.
unfoldable pub untick_needed :
    {Q : Type 0} → ℕ → List (Contribution Q) → List (ListItem Q) → List (ListItem Q)
untick_needed l [] xs = xs
untick_needed l (c ∷ cs) xs =
    untick_needed l cs (update_where (is_line l c.ingredient_id c.unit) untick xs)

module _ {Q : Type 0} (l p : ℕ) where
  -- The plan-meal contributes to no line.
  abbrev pub IsFresh : List (ListItem Q) → Type 0
  IsFresh xs = All (λ x. any (is_from p) x.sources ≡ false) xs

  remove_sources_of_fresh : (xs : List (ListItem Q)) → IsFresh xs → remove_sources l p xs ≡ xs
  unfolding remove_sources
  remove_sources_of_fresh [] h = refl
  remove_sources_of_fresh (x ∷ xs) (h, hs) = ground (arith, remove_sources_of_fresh xs hs)

  module _ (c : Contribution Q) (x : ListItem Q) where
    any-surface : any (is_from p) (surface (meal_source p c) x).sources ≡ true
    unfolding surface any
    any-surface = rw any-append (ground (arith, beq_refl p))

    left-surface : left p (surface (meal_source p c) x) ≡ untick (left p x)
    unfolding surface left untick keep
    left-surface =
        rw keep-append
          (ground (arith, beq_refl p, append-nil (keep (λ s. not (is_from p s)) x.sources)))

    left_of_none : any (is_from p) x.sources ≡ false → left p x ≡ x
    unfolding left
    left_of_none h = rw (keep_of_none (is_from p) x.sources h)

  -- What is left of a line, and of the same line behind one more of the meal's contributions.
  cell : ListItem Q → List (ListItem Q)
  cell x =
      if x.list_id == l && any (is_from p) x.sources
      then (if has_sources (left p x) then left p x ∷ [] else [])
      else x ∷ []

  remove_sources-cons :
      (x : ListItem Q) (xs : List (ListItem Q))
      → remove_sources l p (x ∷ xs) ≡ cell x ++ remove_sources l p xs
  unfolding remove_sources cell
  remove_sources-cons x xs = ground arith

  module _ (i : ℕ) (u : Option String) (c : Contribution Q) (x : ListItem Q) where
    list_id-surface : (surface (meal_source p c) x).list_id ≡ x.list_id
    unfolding surface
    list_id-surface = refl

    cell-surface :
        is_line l i u x ≡ true
        → has_sources x ≡ true
        → cell (surface (meal_source p c) x) ≡ update_where (is_line l i u) untick (cell x)
    unfolding cell update_where untick
    cell-surface e k = ground (
      arith,
      list_id-surface,
      (line_key l i u x e).0,
      any-surface c x,
      left-surface c x,
      left_of_none c x,
      is_line-left l p l i u x,
    )

    cell_other : is_line l i u x ≡ false → update_where (is_line l i u) untick (cell x) ≡ cell x
    unfolding cell update_where
    cell_other e = ground (arith, is_line-left l p l i u x)

  update_where-append :
      (q : ListItem Q → Bool) (f : ListItem Q → ListItem Q) (xs ys : List (ListItem Q))
      → update_where q f (xs ++ ys) ≡ update_where q f xs ++ update_where q f ys
  unfolding update_where
  update_where-append q f [] ys = refl
  update_where-append q f (x ∷ xs) ys = rw (update_where-append q f xs ys)

  module _ (id i : ℕ) (u : Option String) (c : Contribution Q) where
    cell-new_line : cell (new_line id l i u (meal_source p c)) ≡ []
    unfolding cell new_line any left keep
    cell-new_line = ground (arith, beq_refl p)

    -- Removal forgets the contribution, and only the tick of its line with it.
    remove_sources-put_source :
        (xs : List (ListItem Q))
        → IsSound xs
        → remove_sources l p (put_source id l i u (meal_source p c) xs)
          ≡ update_where (is_line l i u) untick (remove_sources l p xs)
    remove_sources-put_source [] h =
        rw
          (
            put_source-nil,
            remove_sources-cons (new_line id l i u (meal_source p c)) [],
            cell-new_line,
          )
          (unfold remove_sources update_where in refl)
    remove_sources-put_source (x ∷ xs) ((h, hs), (k, ks)) =
        rw put_source-cons (elim (Bool-cases (is_line l i u x)) [
          | inl e ↦ rw (
            e,
            remove_sources-cons (surface (meal_source p c) x) xs,
            remove_sources-cons x xs,
            update_where-append,
            cell-surface i u c x e k,
            update_where_of_none (is_line l i u) untick (remove_sources l p xs)
                (any-remove_sources l p l i u xs (sym (any_of_line l i u x xs e) ∙ h)),
          )
          | inr e ↦ rw (
            e,
            remove_sources-cons x (put_source id l i u (meal_source p c) xs),
            remove_sources-cons x xs,
            update_where-append,
            cell_other i u c x e,
            remove_sources-put_source xs (hs, ks),
          )
        ])

module _ {Q : Type 0} (uuid4 : ℕ → ℕ) (l p : ℕ) where
  remove-add_contributions :
      (db : Db Q) (cs : List (Contribution Q))
      → IsSound db.list_items
      → remove_sources l p (add_contributions uuid4 l p db cs).list_items
        ≡ untick_needed l cs (remove_sources l p db.list_items)
  unfolding add_contributions untick_needed
  remove-add_contributions db [] h = refl
  remove-add_contributions db (c ∷ cs) h =
      let id = uuid4 db.drawn in
      rw (
        remove-add_contributions (add_contribution uuid4 l p db c) cs
            (put_source-IsSound id l c.ingredient_id c.unit (meal_source p c) db.list_items h),
        remove_sources-put_source l p id c.ingredient_id c.unit c db.list_items h,
      )

-- On sound lists, adding a meal's contributions for a plan-meal that contributes to nothing yet and
-- removing them again gives back every line of every list, with its state and its contributions,
-- but for the tick of the lines that the meal needs, which is off.
pub remove-add_meal_contributions :
    {Q : Type 0} ⦃amount : Amount Q⦄ (uuid4 : ℕ → ℕ) (l p : ℕ) (meal : Meal Q) (db : Db Q)
    → IsSound db.list_items
    → IsFresh l p db.list_items
    → (remove_meal_contributions l p (add_meal_contributions uuid4 l p meal db)).list_items
      ≡ untick_needed l (meal_contributions db.recipes meal) db.list_items
unfolding remove_meal_contributions add_meal_contributions
remove-add_meal_contributions uuid4 l p meal db sound fresh =
    remove-add_contributions uuid4 l p db (meal_contributions db.recipes meal) sound
    ∙ ap (untick_needed l (meal_contributions db.recipes meal))
        (remove_sources_of_fresh l p db.list_items fresh)
