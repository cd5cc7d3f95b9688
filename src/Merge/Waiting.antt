-- ===== src/Merge/Waiting.antt =====
-- The lines that _merge_list_items of backend/app/services/ingredient_merge.py has still to move.
use meals.Prelude.{
  ℕ, ◌≡◌, refl, ◌∙◌, ap, sym, subst, Bool, true, false, ◌&&◌, not, some, List, [], ◌∷◌, arith, keep,
  find, any, any-keep_le, update_first, erase_first, All, ◌==◌, nat_eq, nat_beq_iff, string_eq,
  option_eq, Option-cases, Bool-cases, inl, inr, if◌then◌else◌,
}
use meals.Models.Shopping.{ListItem}
use meals.Merge.{is_target, absorb, merge_line}

module _ {Q : Type 0} where
  -- No two lines have one id, as the primary key demands.
  unfoldable pub distinct_lines : List (ListItem Q) → Bool
  unfolding any
  distinct_lines [] = true
  distinct_lines (i ∷ is) = not (any (λ j. j.id == i.id) is) && distinct_lines is

  -- A row that a change or a deletion does not select is found as before.
  found-update_first :
      (k : ℕ) (q : ListItem Q → Bool) (f : ListItem Q → ListItem Q) (is : List (ListItem Q))
      (a : ListItem Q)
      → ((i : ListItem Q) → (f i).id ≡ i.id)
      → q a ≡ false
      → find (λ i. i.id == k) is ≡ some a
      → find (λ i. i.id == k) (update_first q f is) ≡ some a
  unfolding find update_first
  found-update_first k q f [] a same out h = cc
  found-update_first k q f (i ∷ is) a same out h = elim (Bool-cases (i.id == k)) [
    | inl here ↦
        let it : i ≡ a = ground (arith, h, here) in
        let stays : q i ≡ false = ap q it ∙ out in ground (arith, here, stays, it)
    | inr other ↦ ground (arith, h, other, same i, found-update_first k q f is a same out)
  ]

  found-erase_first :
      (k : ℕ) (q : ListItem Q → Bool) (is : List (ListItem Q)) (a : ListItem Q)
      → q a ≡ false
      → find (λ i. i.id == k) is ≡ some a
      → find (λ i. i.id == k) (erase_first q is) ≡ some a
  unfolding find erase_first
  found-erase_first k q [] a out h = cc
  found-erase_first k q (i ∷ is) a out h = elim (Bool-cases (i.id == k)) [
    | inl here ↦
        let it : i ≡ a = ground (arith, h, here) in
        let stays : q i ≡ false = ap q it ∙ out in ground (arith, here, stays, it)
    | inr other ↦ ground (arith, h, other, found-erase_first k q is a out)
  ]

  absorb-id : (moving i : ListItem Q) → (absorb moving i).id ≡ i.id
  unfolding absorb
  absorb-id moving i = refl

  no_target :
      (to_id : ℕ) (moving i : ListItem Q)
      → (i.ingredient_id == to_id) ≡ false
      → is_target to_id moving i ≡ false
  unfolding is_target
  no_target to_id moving i h = ground (arith, h)

  -- A line that is still to move is not touched by the move of another.
  found-merge_line :
      (to_id : ℕ) (moving m : ListItem Q) (is : List (ListItem Q))
      → (m.id == moving.id) ≡ false
      → (m.ingredient_id == to_id) ≡ false
      → find (λ i. i.id == m.id) is ≡ some m
      → find (λ i. i.id == m.id) (merge_line to_id moving is) ≡ some m
  unfolding merge_line
  found-merge_line to_id moving m is other waits there =
      let is_it : ListItem Q → Bool = λ i. i.id == moving.id in
      elim (Option-cases (find (is_target to_id moving) is)) [
        | inl n ↦ ground (
          arith,
          n,
          found-update_first m.id is_it (λ i. record i { ingredient_id = to_id }) is m (λ _. refl)
              other there,
        )
        | inr (t, n) ↦
            let after = update_first (is_target to_id moving) (absorb moving) is in
            let kept : find (λ i. i.id == m.id) after ≡ some m =
              found-update_first m.id (is_target to_id moving) (absorb moving) is m
                (absorb-id moving) (no_target to_id moving m waits) there in
            ground (arith, n, found-erase_first m.id is_it after m other kept)
      ]

  -- The lines that are still to move are in the table, and each of them is of the duplicate.
  unfoldable pub AreWaiting : ℕ → List (ListItem Q) → List (ListItem Q) → Type 0
  AreWaiting from_id rest is =
      All (λ m. (find (λ i. i.id == m.id) is ≡ some m) × ((m.ingredient_id == from_id) ≡ true)) rest

  is_apart :
      (from_id to_id : ℕ) (m : ListItem Q)
      → (from_id == to_id) ≡ false
      → (m.ingredient_id == from_id) ≡ true
      → (m.ingredient_id == to_id) ≡ false
  is_apart from_id to_id m apart his = ground (
    arith,
    his,
    apart,
    nat_beq_iff m.ingredient_id from_id,
    nat_beq_iff m.ingredient_id to_id,
    nat_beq_iff from_id to_id,
  )

  pub still_waiting :
      (from_id to_id : ℕ) (moving : ListItem Q) (rest is : List (ListItem Q))
      → (from_id == to_id) ≡ false
      → any (λ j. j.id == moving.id) rest ≡ false
      → AreWaiting from_id rest is
      → AreWaiting from_id rest (merge_line to_id moving is)
  unfolding AreWaiting any
  still_waiting from_id to_id moving [] is apart d w = w
  still_waiting from_id to_id moving (m ∷ rest) is apart d ((there, his), ws) = (
    (
      found-merge_line to_id moving m is (ground (arith, d)) (is_apart from_id to_id m apart his)
          there,
      his,
    ),
    still_waiting from_id to_id moving rest is apart (ground (arith, d)) ws,
  )

  waiting-cons :
      (from_id : ℕ) (i : ListItem Q) (rest is : List (ListItem Q))
      → any (λ j. j.id == i.id) rest ≡ false
      → AreWaiting from_id rest is
      → AreWaiting from_id rest (i ∷ is)
  unfolding AreWaiting any find
  waiting-cons from_id i [] is d w = w
  waiting-cons from_id i (m ∷ rest) is d ((there, his), ws) = (
    (ground (arith, d, there, nat_beq_iff i.id m.id, nat_beq_iff m.id i.id), his),
    waiting-cons from_id i rest is (ground (arith, d)) ws,
  )

  pub waiting-keep :
      (from_id : ℕ) (is : List (ListItem Q))
      → distinct_lines is ≡ true
      → AreWaiting from_id (keep (λ i. i.ingredient_id == from_id) is) is
  unfolding AreWaiting distinct_lines keep find
  waiting-keep from_id [] d = tt
  waiting-keep from_id (i ∷ is) d =
      let q : ListItem Q → Bool = λ i. i.ingredient_id == from_id in
      let alone : any (λ j. j.id == i.id) is ≡ false = ground (arith, d) in
      let rest : AreWaiting from_id (keep q is) (i ∷ is) =
        waiting-cons from_id i (keep q is) is (any-keep_le (λ j. j.id == i.id) q is alone)
          (waiting-keep from_id is (ground (arith, d))) in
      elim (Bool-cases (i.ingredient_id == from_id)) [
        | inl his ↦
            subst (λ b. AreWaiting from_id (if b then i ∷ keep q is else keep q is) (i ∷ is))
              (sym his) ((ground (arith, nat_beq_iff i.id i.id), his), rest)
        | inr other ↦
            subst (λ b. AreWaiting from_id (if b then i ∷ keep q is else keep q is) (i ∷ is))
              (sym other) rest
      ]

  pub distinct_lines-keep :
      (q : ListItem Q → Bool) (is : List (ListItem Q))
      → distinct_lines is ≡ true
      → distinct_lines (keep q is) ≡ true
  unfolding distinct_lines keep
  distinct_lines-keep q [] d = refl
  distinct_lines-keep q (i ∷ is) d =
      ground (arith, any-keep_le (λ j. j.id == i.id) q is, distinct_lines-keep q is)
