-- ===== src/Shopping/Removal.antt =====
-- What removing a meal's contributions does to the lists.
use meals.Prelude.{
  ℕ, ◌≡◌, refl, String, false, not, Option, List, [], ◌∷◌, arith, keep, any, keep-append,
  keep_of_none, ◌==◌, nat_eq, string_eq, option_eq, if◌then◌else◌,
}
use meals.Models.Shopping.{ListItem}
use meals.Shopping.{is_line, is_from, left, has_sources, remove_sources, sources_at}
use meals.Shopping.Keys.{line_key}
use meals.Shopping.Lines.{IsSound}

module _ {Q : Type 0} (l p : ℕ) where
  -- the line's contributions when it is kept and when it goes
  sources_of_left :
      (x : ListItem Q)
      → has_sources (left p x) ≡ false
      → keep (λ s. not (is_from p s)) x.sources ≡ []
  unfolding left
  sources_of_left x h = ground arith

  pub is_line-left :
      (l' i' : ℕ) (u' : Option String) (x : ListItem Q)
      → is_line l' i' u' (left p x) ≡ is_line l' i' u' x
  unfolding is_line left
  is_line-left l' i' u' x = refl

  -- Of every ingredient and unit, exactly the plan-meal's contributions leave the list; other
  -- lists are untouched.
  pub sources_at-remove_sources :
      (l' i' : ℕ) (u' : Option String) (xs : List (ListItem Q))
      → sources_at l' i' u' (remove_sources l p xs) ≡ (
          if l == l'
          then keep (λ s. not (is_from p s)) (sources_at l' i' u' xs)
          else sources_at l' i' u' xs)
  unfolding sources_at remove_sources left
  sources_at-remove_sources l' i' u' [] = unfold keep in ground arith
  sources_at-remove_sources l' i' u' (x ∷ xs) =
      let rest = sources_at-remove_sources l' i' u' xs in
      let split = keep-append (λ s. not (is_from p s)) x.sources (sources_at l' i' u' xs) in
      ground (
        arith,
        sources_of_left x,
        is_line-left l' i' u' x,
        line_key l' i' u' x,
        keep_of_none (is_from p) x.sources,
      )

  pub any-remove_sources :
      (l' i' : ℕ) (u' : Option String) (xs : List (ListItem Q))
      → any (is_line l' i' u') xs ≡ false
      → any (is_line l' i' u') (remove_sources l p xs) ≡ false
  unfolding any remove_sources
  any-remove_sources l' i' u' [] h = refl
  any-remove_sources l' i' u' (x ∷ xs) h =
      ground (arith, any-remove_sources l' i' u' xs, is_line-left l' i' u' x)

  pub remove_sources-IsSound :
      (xs : List (ListItem Q)) → IsSound xs → IsSound (remove_sources l p xs)
  unfolding remove_sources left
  remove_sources-IsSound [] h = h
  remove_sources-IsSound (x ∷ xs) ((h, hs), (k, ks)) = ground (
    arith,
    any-remove_sources x.list_id x.ingredient_id x.unit xs h,
    remove_sources-IsSound xs (hs, ks),
  )
