-- ===== src/Supermarkets/Saved.antt =====
-- An order that can be saved is walked as it was saved.
use mathlib.Core.List.{append-nil, append_assoc}
use meals.Prelude.{
  ◌≤◌, ◌≡◌, refl, ap, sym, subst, String, true, false, ◌||◌, not, none, List, [], ◌∷◌, ◌++◌, arith,
  keep, any, mem, ltb, string_eq,
}
use meals.Supermarkets.{known_of, effective_aisle_order, count_of, invalid_aisle_order_detail}
use meals.Supermarkets.Complete.{mem-append, count_of-append, are_distinct}

count_of-mem : (e : String) (xs : List String) → mem e xs ≡ true → 1 ≤ count_of e xs
unfolding mem count_of keep
count_of-mem e [] h = cc
count_of-mem e (x ∷ xs) h = ground (arith, count_of-mem e xs)

-- A head that is counted once is not met again.
absent_of_count :
    (x : String) (pre xs : List String)
    → ltb 1 (count_of x (pre ++ (x ∷ xs))) ≡ false
    → mem x xs ≡ false
absent_of_count x pre xs h =
    unfold keep in
    unfold count_of in
    ground (arith, count_of-append x pre (x ∷ xs), count_of-mem x xs, string_eq.same_iff x x)

distinct_of_counts :
    (pre xs : List String)
    → keep (λ e. ltb 1 (count_of e (pre ++ xs))) xs ≡ []
    → are_distinct xs ≡ true
unfolding are_distinct keep
distinct_of_counts pre [] h = refl
distinct_of_counts pre (x ∷ xs) h =
    let rest : keep (λ e. ltb 1 (count_of e ((pre ++ (x ∷ [])) ++ xs))) xs ≡ [] =
      subst (λ ys. keep (λ e. ltb 1 (count_of e ys)) xs ≡ []) (sym (append_assoc pre (x ∷ []) xs))
        (ground arith) in
    ground (arith, distinct_of_counts (pre ++ (x ∷ [])) xs rest, absent_of_count x pre xs)

any-mem-append :
    (x : String) (known xs : List String)
    → any (λ e. mem e (known ++ (x ∷ []))) xs ≡ (any (λ e. mem e known) xs || mem x xs)
unfolding any mem
any-mem-append x known [] = refl
any-mem-append x known (y ∷ xs) = ground (
  arith,
  any-mem-append x known xs,
  mem-append y known (x ∷ []),
  string_eq.same_iff x y,
  string_eq.same_iff y x,
)

module _ (aisles : List String) where
  known_of-append :
      (known stored : List String)
      → keep (λ e. not (mem e aisles)) stored ≡ []
      → are_distinct stored ≡ true
      → any (λ e. mem e known) stored ≡ false
      → known_of aisles known stored ≡ known ++ stored
  unfolding known_of keep are_distinct any
  known_of-append known [] u d n = sym (append-nil known)
  known_of-append known (x ∷ stored) u d n = ground (
    arith,
    known_of-append (known ++ (x ∷ [])) stored,
    any-mem-append x known stored,
    append_assoc known (x ∷ []) stored,
  )

  none_known : (xs : List String) → any (λ e. mem e []) xs ≡ false
  unfolding any mem
  none_known [] = refl
  none_known (x ∷ xs) = ground (arith, none_known xs)

  all_unknown : (xs : List String) → keep (λ e. not (mem e [])) xs ≡ xs
  unfolding keep mem
  all_unknown [] = refl
  all_unknown (x ∷ xs) = ground (arith, all_unknown xs)

  -- An order that is accepted names only aisles of the vocabulary, none of them twice, and the
  -- effective order is that order as it was saved, followed by the aisles that it leaves out in
  -- their usual order.
  pub effective_of_valid :
      (order : List String)
      → invalid_aisle_order_detail aisles order ≡ none
      → (keep (λ e. not (mem e aisles)) order ≡ [])
        × (are_distinct order ≡ true)
        × (effective_aisle_order aisles order ≡ order ++ keep (λ e. not (mem e order)) aisles)
  unfolding invalid_aisle_order_detail effective_aisle_order
  effective_of_valid [] h = (refl, unfold are_distinct in refl, sym (all_unknown aisles))
  effective_of_valid (x ∷ rest) h =
      let order = x ∷ rest in
      let named : keep (λ e. not (mem e aisles)) order ≡ [] = ground arith in
      let once : keep (λ e. ltb 1 (count_of e order)) order ≡ [] = ground (arith, named) in
      let distinct = distinct_of_counts [] order once in
      let whole : known_of aisles [] order ≡ order =
        known_of-append [] order named distinct (none_known order) in
      (named, distinct, ap (λ known. known ++ keep (λ e. not (mem e known)) aisles) whole)
