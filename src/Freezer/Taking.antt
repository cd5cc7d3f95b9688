-- ===== src/Freezer/Taking.antt =====
-- Taking portions out of the freezer.
use meals.Prelude.{
  ℕ, ◌+◌, ◌-◌, min, ◌≡◌, ◌⊎◌, Bool, some, List, [], ◌∷◌, arith, find, find-holds, update_first,
  erase_first, ◌==◌, nat_eq, nat_beq_iff, ok, Option-cases, inl, inr, subst, sym,
}
use meals.Models.{Db}
use meals.Models.Freezer.{FreezerItem}
use meals.Freezer.{get_item, take_portions, total_portions, take_from_freezer}

module _ (hh : ℕ) where
  total-erase_first :
      (p : FreezerItem → Bool) (items : List FreezerItem) (item : FreezerItem)
      → find p items ≡ some item
      → total_portions hh items
        ≡ total_portions hh (erase_first p items) + total_portions hh (item ∷ [])
  unfolding total_portions find erase_first
  total-erase_first p [] item h = cc
  total-erase_first p (i ∷ items) item h = ground (arith, total-erase_first p items item)

  total-update_first :
      (p : FreezerItem → Bool) (f : FreezerItem → FreezerItem) (items : List FreezerItem)
      (item : FreezerItem)
      → find p items ≡ some item
      → total_portions hh items + total_portions hh (f item ∷ [])
        ≡ total_portions hh (update_first p f items) + total_portions hh (item ∷ [])
  unfolding total_portions find update_first
  total-update_first p f [] item h = cc
  total-update_first p f (i ∷ items) item h = ground (arith, total-update_first p f items item)

get_item-find :
    (hh item_id : ℕ) (items : List FreezerItem) (item : FreezerItem)
    → get_item hh item_id items ≡ some item
    → (find (λ i. i.id == item.id) items ≡ some item) × (item.household_id ≡ hh)
unfolding get_item
get_item-find hh item_id items item h = elim (Option-cases (find (λ i. i.id == item_id) items)) [
  | inl e ↦ ground (arith, e)
  | inr (x, e) ↦
      let same : x ≡ item = ground (arith, e) in
      let is_id : x.id ≡ item_id =
        (nat_beq_iff x.id item_id).0
          (find-holds (λ (i : FreezerItem). i.id == item_id) items x e) in
      let own : item.household_id ≡ hh = ground (arith, e) in
      (
        subst (λ (y : FreezerItem). find (λ i. i.id == y.id) items ≡ some y) same
            (subst (λ k. find (λ (i : FreezerItem). i.id == k) items ≡ some x) (sym is_id) e),
        own,
      )
]

module _ (portions : ℕ) (items : List FreezerItem) (item : FreezerItem)
    (found : find (λ i. i.id == item.id) items ≡ some item) where
  take_portions-own :
      total_portions item.household_id (take_portions item portions items).1
        + min portions item.portions
      ≡ total_portions item.household_id items
  unfolding take_portions total_portions
  take_portions-own = ground (
    arith,
    total-erase_first item.household_id (λ i. i.id == item.id) items item found,
    total-update_first item.household_id (λ i. i.id == item.id)
        (λ i. record i { portions = item.portions - portions }) items item found,
    nat_beq_iff item.household_id item.household_id,
  )

  take_portions-other :
      (other : ℕ)
      → (other ≡ item.household_id)
        ⊎ (total_portions other (take_portions item portions items).1 ≡ total_portions other items)
  unfolding take_portions total_portions
  take_portions-other other = ground (
    arith,
    total-erase_first other (λ i. i.id == item.id) items item found,
    total-update_first other (λ i. i.id == item.id)
        (λ i. record i { portions = item.portions - portions }) items item found,
    nat_beq_iff item.household_id other,
  )

module _ {Q : Type 0} where
  -- A household that takes portions out of a batch of its own is answered with what is left of the
  -- batch, 0 where it asked for more than there was; its total falls by what it took, which is no
  -- more than it asked for and no more than there was; and the total of every other household
  -- stays.
  pub take_from_freezer_total :
      (hh item_id portions other : ℕ) (db : Db Q) (item : FreezerItem)
      → get_item hh item_id db.freezer_items ≡ some item
      → (db' : Db Q) × (take_from_freezer hh item_id portions db
          ≡ ok (item.portions - portions, db'))
        × (total_portions hh db'.freezer_items + min portions item.portions
            ≡ total_portions hh db.freezer_items)
        × ((other ≡ hh)
            ⊎ (total_portions other db'.freezer_items ≡ total_portions other db.freezer_items))
  unfolding take_from_freezer take_portions
  take_from_freezer_total hh item_id portions other db item h =
      let (found, own) = get_item-find hh item_id db.freezer_items item h in
      let rest = take_portions item portions db.freezer_items in
      (
        record db { freezer_items = rest.1 },
        ground (arith, h),
        subst
            (λ k.
              total_portions k rest.1 + min portions item.portions
              ≡ total_portions k db.freezer_items)
            own (take_portions-own portions db.freezer_items item found),
        subst
            (λ k.
              (other ≡ k) ⊎ (total_portions other rest.1 ≡ total_portions other db.freezer_items))
            own (take_portions-other portions db.freezer_items item found other),
      )
