-- ===== src/Merge/Contributions.antt =====
-- _merge_list_items of backend/app/services/ingredient_merge.py, counted by list, ingredient, unit.
use meals.Prelude.{
  ℕ, ◌+◌, ◌≡◌, ◌∙◌, ap, Option, String, Bool, true, false, ◌&&◌, List, [], ◌∷◌, arith, length,
  length-append, keep, map, keep-append, ◌==◌, nat_eq, nat_beq_iff, string_eq, option_eq,
  if◌then◌else◌,
}
use meals.Models.Shopping.{ListItem, ListItemSource}
use meals.Models.{Db}
use meals.Models.Catalog.{Ingredient}
use meals.Merge.{is_target, absorb, merge_line, merge_lines, merge_list_items, fold_into}
use meals.Merge.Weights.{weigh, as_kept, IsAdditive, weigh-merge_line}
use meals.Merge.Waiting.{
  distinct_lines, AreWaiting, still_waiting, waiting-keep, distinct_lines-keep,
}

module _ {Q : Type 0} where
  -- The contributions of some kind of a line, where it is for the ingredient on the list in the
  -- unit.
  unfoldable pub share : (ListItemSource Q → Bool) → ℕ → ℕ → Option String → ListItem Q → ℕ
  unfolding keep
  share p list_id ingredient_id unit i =
      if i.list_id == list_id && i.ingredient_id == ingredient_id && i.unit == unit
      then length (keep p i.sources)
      else 0

  -- How many contributions of some kind an ingredient has on a list in a unit.
  unfoldable pub total_at :
      (ListItemSource Q → Bool) → ℕ → ℕ → Option String → List (ListItem Q) → ℕ
  unfolding weigh share
  total_at p list_id ingredient_id unit is = weigh (share p list_id ingredient_id unit) is

  weigh-merge_lines :
      (from_id to_id : ℕ) (w : ListItem Q → ℕ) (rest is : List (ListItem Q))
      → IsAdditive to_id w
      → (from_id == to_id) ≡ false
      → distinct_lines rest ≡ true
      → AreWaiting from_id rest is
      → weigh w (merge_lines to_id rest is) + weigh w rest
        ≡ weigh w is + weigh w (map (as_kept to_id) rest)
  unfolding merge_lines AreWaiting distinct_lines weigh
  weigh-merge_lines from_id to_id w [] is adds apart d ws = ground arith
  weigh-merge_lines from_id to_id w (m ∷ rest) is adds apart d ((there, his), ws) = ground (
    arith,
    weigh-merge_lines from_id to_id w rest (merge_line to_id m is) adds apart (ground (arith, d))
        (still_waiting from_id to_id m rest is apart (ground (arith, d)) ws),
    weigh-merge_line to_id w m is adds there,
  )

  -- A merge takes the weight of the lines that moved out, and puts in what they weigh as moved.
  weigh-merge_list_items :
      (from_id to_id : ℕ) (w : ListItem Q → ℕ) (is : List (ListItem Q))
      → IsAdditive to_id w
      → (from_id == to_id) ≡ false
      → distinct_lines is ≡ true
      → let moving = keep (λ i. i.ingredient_id == from_id) is in
        weigh w (merge_list_items from_id to_id is) + weigh w moving
        ≡ weigh w is + weigh w (map (as_kept to_id) moving)
  unfolding merge_list_items
  weigh-merge_list_items from_id to_id w is adds apart d =
      weigh-merge_lines from_id to_id w (keep (λ i. i.ingredient_id == from_id) is) is adds apart
        (distinct_lines-keep (λ i. i.ingredient_id == from_id) is d) (waiting-keep from_id is d)

  sources-absorb :
      (p : ListItemSource Q → Bool) (moving t : ListItem Q)
      → length (keep p (absorb moving t).sources)
        ≡ length (keep p t.sources) + length (keep p moving.sources)
  unfolding absorb
  sources-absorb p moving t =
      ap length (keep-append p t.sources moving.sources)
      ∙ length-append (keep p t.sources) (keep p moving.sources)

  -- A line and the one that it moves into are of one list and one unit.
  target-same :
      (to_id : ℕ) (m t : ListItem Q)
      → is_target to_id m t ≡ true
      → (t.list_id ≡ m.list_id) × (t.ingredient_id ≡ to_id) × (t.unit ≡ m.unit)
  unfolding is_target
  target-same to_id m t h = (
    ground (arith, h, nat_beq_iff t.list_id m.list_id),
    ground (arith, h, nat_beq_iff t.ingredient_id to_id),
    (option_eq.same_iff t.unit m.unit).0 (ground (arith, h)),
  )

  module _ (p : ListItemSource Q → Bool) (l i : ℕ) (u : Option String) where
    share-IsAdditive : (to_id : ℕ) → IsAdditive to_id (share p l i u)
    unfolding IsAdditive share absorb
    share-IsAdditive to_id m t h =
        let (list, ingredient, unit) = target-same to_id m t h in
        ground (
          arith,
          sources-absorb p m t,
          ap (λ k. k == l) list,
          ap (λ k. k == i) ingredient,
          ap (λ k. k == u) unit,
        )

    -- The lines of the duplicate hold all its contributions, and none of another ingredient.
    weigh-moving :
        (from_id : ℕ) (is : List (ListItem Q))
        → weigh (share p l i u) (keep (λ x. x.ingredient_id == from_id) is)
          ≡ (if i == from_id then weigh (share p l from_id u) is else 0)
    unfolding weigh share keep
    weigh-moving from_id [] = ground arith
    weigh-moving from_id (x ∷ is) = ground (
      arith,
      weigh-moving from_id is,
      nat_beq_iff x.ingredient_id from_id,
      nat_beq_iff x.ingredient_id i,
      nat_beq_iff i from_id,
    )

    -- As they are moved they are all the keeper's.
    weigh-moved :
        (from_id to_id : ℕ) (is : List (ListItem Q))
        → weigh (share p l i u) (map (as_kept to_id) (keep (λ x. x.ingredient_id == from_id) is))
          ≡ (if i == to_id then weigh (share p l from_id u) is else 0)
    unfolding weigh share keep
    weigh-moved from_id to_id [] = ground arith
    weigh-moved from_id to_id (x ∷ is) =
        ground (arith, weigh-moved from_id to_id is, nat_beq_iff to_id i, nat_beq_iff i to_id)

  -- When no two lines have one id and the duplicate is not the keeper, merging the duplicate into
  -- the keeper moves its contributions within their list and unit: of whatever kind, the keeper has
  -- on each list in each unit as many as both had together, the duplicate has none, and any other
  -- ingredient has as many as before.
  pub total_at-fold_into :
      (p : ListItemSource Q → Bool) (keeper duplicate : Ingredient) (db : Db Q) (l i : ℕ)
      (u : Option String)
      → distinct_lines db.list_items ≡ true
      → (duplicate.id == keeper.id) ≡ false
      → total_at p l i u (fold_into keeper duplicate db).list_items ≡ (
          if i == keeper.id
          then total_at p l keeper.id u db.list_items + total_at p l duplicate.id u db.list_items
          else if i == duplicate.id
          then 0
          else total_at p l i u db.list_items)
  unfolding fold_into total_at
  total_at-fold_into p keeper duplicate db l i u d apart = ground (
    arith,
    apart,
    weigh-merge_list_items duplicate.id keeper.id (share p l i u) db.list_items
        (share-IsAdditive p l i u keeper.id) apart d,
    weigh-moving p l i u duplicate.id db.list_items,
    weigh-moved p l i u duplicate.id keeper.id db.list_items,
    nat_beq_iff i keeper.id,
    nat_beq_iff i duplicate.id,
    nat_beq_iff duplicate.id keeper.id,
  )
