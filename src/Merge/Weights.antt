-- ===== src/Merge/Weights.antt =====
-- What a round of _merge_list_items in backend/app/services/ingredient_merge.py does to a weight of
-- the lines.
use meals.Prelude.{
  ℕ, ◌+◌, ◌≡◌, refl, ◌∙◌, subst, Bool, true, false, some, List, [], ◌∷◌, arith, find, update_first,
  erase_first, find-update_first_other, find-holds, ◌==◌, nat_eq, string_eq, option_eq,
  Option-cases, Bool-cases, inl, inr,
}
use meals.Models.Shopping.{ListItem}
use meals.Merge.{is_target, absorb, merge_line}

module _ {Q : Type 0} where
  -- What the lines weigh together.
  unfoldable pub weigh : (ListItem Q → ℕ) → List (ListItem Q) → ℕ
  weigh w [] = 0
  weigh w (i ∷ is) = w i + weigh w is

  weigh-update_first :
      (w : ListItem Q → ℕ) (q : ListItem Q → Bool) (f : ListItem Q → ListItem Q)
      (is : List (ListItem Q)) (t : ListItem Q)
      → find q is ≡ some t
      → weigh w (update_first q f is) + w t ≡ weigh w is + w (f t)
  unfolding weigh find update_first
  weigh-update_first w q f [] t h = cc
  weigh-update_first w q f (i ∷ is) t h = elim (Bool-cases (q i)) [
    | inl here ↦
        let same : i ≡ t = ground (arith, h, here) in
        subst
          (λ (s : ListItem Q).
            weigh w (update_first q f (i ∷ is)) + w s ≡ weigh w (i ∷ is) + w (f s))
          same (ground (arith, here))
    | inr other ↦ ground (arith, h, other, weigh-update_first w q f is t)
  ]

  weigh-erase_first :
      (w : ListItem Q → ℕ) (q : ListItem Q → Bool) (is : List (ListItem Q)) (t : ListItem Q)
      → find q is ≡ some t
      → weigh w (erase_first q is) + w t ≡ weigh w is
  unfolding weigh find erase_first
  weigh-erase_first w q [] t h = cc
  weigh-erase_first w q (i ∷ is) t h = elim (Bool-cases (q i)) [
    | inl here ↦
        let same : i ≡ t = ground (arith, h, here) in
        subst (λ (s : ListItem Q). weigh w (erase_first q (i ∷ is)) + w s ≡ weigh w (i ∷ is)) same
          (ground (arith, here))
    | inr other ↦ ground (arith, h, other, weigh-erase_first w q is t)
  ]

  id-absorb : (moving i : ListItem Q) → ((absorb moving i).id == moving.id) ≡ (i.id == moving.id)
  unfolding absorb
  id-absorb moving i = refl

  target-other :
      (to_id : ℕ) (moving i : ListItem Q)
      → is_target to_id moving i ≡ true
      → (i.id == moving.id) ≡ false
  unfolding is_target
  target-other to_id moving i h = ground (arith, h)

  -- The line as it is behind the change of its ingredient.
  abbrev pub as_kept : ℕ → ListItem Q → ListItem Q
  as_kept to_id m = record m { ingredient_id = to_id }

  -- A weight that a line which absorbs another takes on.
  unfoldable pub IsAdditive : ℕ → (ListItem Q → ℕ) → Type 0
  IsAdditive to_id w =
      (m t : ListItem Q) → is_target to_id m t ≡ true → w (absorb m t) ≡ w t + w (as_kept to_id m)

  pub weigh-merge_line :
      (to_id : ℕ) (w : ListItem Q → ℕ) (moving : ListItem Q) (is : List (ListItem Q))
      → IsAdditive to_id w
      → find (λ i. i.id == moving.id) is ≡ some moving
      → weigh w (merge_line to_id moving is) + w moving ≡ weigh w is + w (as_kept to_id moving)
  unfolding merge_line IsAdditive
  weigh-merge_line to_id w moving is adds there =
      let is_it : ListItem Q → Bool = λ i. i.id == moving.id in
      elim (Option-cases (find (is_target to_id moving) is)) [
        | inl n ↦ ground (arith, n, weigh-update_first w is_it (as_kept to_id) is moving there)
        | inr (t, n) ↦
            let after = update_first (is_target to_id moving) (absorb moving) is in
            let still : find is_it after ≡ some moving =
              find-update_first_other is_it (is_target to_id moving) (absorb moving) is
                (id-absorb moving) (target-other to_id moving)
              ∙ there in
            ground (
              arith,
              n,
              adds moving t (find-holds (is_target to_id moving) is t n),
              weigh-update_first w (is_target to_id moving) (absorb moving) is t n,
              weigh-erase_first w is_it after moving still,
            )
      ]
