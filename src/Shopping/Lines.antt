-- ===== src/Shopping/Lines.antt =====
-- What one contribution changes on the lists.
use mathlib.Core.List.{append-nil, append_assoc}
use meals.Prelude.{
  ℕ, ◌≡◌, refl, String, true, false, Option, List, [], ◌∷◌, ◌++◌, arith, any, nat_eq, string_eq,
  option_eq, if◌then◌else◌, Bool-cases, inl, inr, All,
}
use meals.Models.Shopping.{ListItem, ListItemSource}
use meals.Shopping.{is_line, put_source, surface, new_line, sources_at, has_sources}
use meals.Shopping.Keys.{
  same_key, IsUnique, is_line_of_line, any_of_line, is_line-new_line, same_key-line,
  put_source-cons,
}

module _ {Q : Type 0} where
  sources_at_of_no_line :
      (l i : ℕ) (u : Option String) (xs : List (ListItem Q))
      → any (is_line l i u) xs ≡ false
      → sources_at l i u xs ≡ []
  unfolding sources_at any
  sources_at_of_no_line l i u [] h = refl
  sources_at_of_no_line l i u (x ∷ xs) h = ground (arith, sources_at_of_no_line l i u xs)

module _ {Q : Type 0} (id l i l' i' : ℕ) (u u' : Option String) (s : ListItemSource Q) where
  is_line-surface : (x : ListItem Q) → is_line l' i' u' (surface s x) ≡ is_line l' i' u' x
  unfolding is_line surface
  is_line-surface x = refl

  pub put_source-nil : put_source id l i u s [] ≡ new_line id l i u s ∷ []
  unfolding put_source
  put_source-nil = refl

  pub any-put_source :
      (xs : List (ListItem Q))
      → any (is_line l' i' u') (put_source id l i u s xs)
        ≡ (if same_key l i u l' i' u' then true else any (is_line l' i' u') xs)
  unfolding any
  any-put_source [] = rw put_source-nil (ground (arith, is_line-new_line id l i l' i' u u' s))
  any-put_source (x ∷ xs) = rw put_source-cons (elim (Bool-cases (is_line l i u x)) [
    | inl e ↦ rw e (ground (arith, is_line-surface x, is_line_of_line l i l' i' u u' x e))
    | inr e ↦ rw e (ground (arith, any-put_source xs))
  ])

  -- The contribution is the last one of its ingredient and unit on its list, and no other is
  -- touched.
  pub sources_at-put_source :
      (xs : List (ListItem Q))
      → IsUnique xs
      → sources_at l' i' u' (put_source id l i u s xs) ≡ (
          if same_key l i u l' i' u'
          then sources_at l' i' u' xs ++ (s ∷ [])
          else sources_at l' i' u' xs)
  unfolding sources_at surface new_line
  sources_at-put_source [] h =
      rw put_source-nil (ground (arith, is_line-new_line id l i l' i' u u' s))
  sources_at-put_source (x ∷ xs) (h, hs) = rw put_source-cons (elim (Bool-cases (is_line l i u x)) [
    | inl e ↦ rw e (
        ground (
          arith,
          is_line-surface x,
          is_line_of_line l i l' i' u u' x e,
          any_of_line l' i' u' x xs,
          sources_at_of_no_line l' i' u' xs,
          append-nil x.sources,
          append-nil (x.sources ++ (s ∷ [])),
        ))
    | inr e ↦ rw e (
        ground (
          arith,
          sources_at-put_source xs hs,
          append_assoc x.sources (sources_at l' i' u' xs) (s ∷ []),
        ))
  ])

-- Every line has a reason to be there.
abbrev pub HasReasons : {Q : Type 0} → List (ListItem Q) → Type 0
HasReasons xs = All (λ x. has_sources x ≡ true) xs

-- One line for each key, and a reason for each line.
abbrev pub IsSound : {Q : Type 0} → List (ListItem Q) → Type 0
IsSound xs = IsUnique xs × HasReasons xs

module _ {Q : Type 0} (id l i : ℕ) (u : Option String) (s : ListItemSource Q) where
  put_source-IsUnique : (xs : List (ListItem Q)) → IsUnique xs → IsUnique (put_source id l i u s xs)
  unfolding surface any
  put_source-IsUnique [] h = rw put_source-nil (refl, tt)
  put_source-IsUnique (x ∷ xs) (h, hs) = rw put_source-cons (elim (Bool-cases (is_line l i u x)) [
    | inl e ↦ rw e (h, hs)
    | inr e ↦ rw e (rw (any-put_source, same_key-line l i u x, e) h, put_source-IsUnique xs hs)
  ])

  has_sources-append :
      (ys : List (ListItemSource Q)) (x : ListItem Q)
      → has_sources (record x { sources = ys ++ (s ∷ []) }) ≡ true
  has_sources-append [] x = refl
  has_sources-append (y ∷ ys) x = refl

  put_source-HasReasons :
      (xs : List (ListItem Q)) → HasReasons xs → HasReasons (put_source id l i u s xs)
  unfolding surface new_line
  put_source-HasReasons [] h = rw put_source-nil (refl, tt)
  put_source-HasReasons (x ∷ xs) (h, hs) = rw put_source-cons (elim (Bool-cases (is_line l i u x)) [
    | inl e ↦ rw e (has_sources-append x.sources (record x { checked = false }), hs)
    | inr e ↦ rw e (h, put_source-HasReasons xs hs)
  ])

  pub put_source-IsSound :
      (xs : List (ListItem Q)) → IsSound xs → IsSound (put_source id l i u s xs)
  put_source-IsSound xs (h, k) = (put_source-IsUnique xs h, put_source-HasReasons xs k)
