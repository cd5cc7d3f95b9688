-- ===== src/Shopping/Kept.antt =====
-- No request of the shopping list loses what a planned meal needs.
use mathlib.Core.List.{append-nil}
use meals.Prelude.{
  ℕ, ◌≡◌, refl, ◌⊎◌, subst, subst₂, sym, ap, String, Bool, true, false, not, Option, some, List, [],
  ◌∷◌, arith, find, any, all, keep, keep-append, update_first, erase_first, nat_eq, option_eq, ok,
  Option-cases, Result-cases, inl, inr,
}
use meals.Models.{Db}
use meals.Models.Catalog.{Ingredient}
use meals.Models.Shopping.{ListItem, ListItemSource}
use meals.Catalog.{get_or_create_ingredient}
use meals.Shopping.{is_line, is_adhoc, is_adhoc_only, put_source, sources_at, get_active_list}
use meals.Shopping.Lines.{IsSound, sources_at-put_source, put_source-IsSound}
use meals.Shopping.Adhoc.{
  AdhocItemIn, Context, adhoc_source, find_replay, reuse_id, line_id, write_adhoc, add_adhoc_item,
}
use meals.Shopping.Requests.{
  Request, add_item, update_item, delete_item, is_item, set_flags, update_line, delete_line, handle,
}

module _ {Q : Type 0} where
  -- The contributions of planned meals to an ingredient in a unit on a list.
  pub meal_sources_at : ℕ → ℕ → Option String → List (ListItem Q) → List (ListItemSource Q)
  meal_sources_at l i u xs = keep (λ s. not (is_adhoc s)) (sources_at l i u xs)

  keep_of_adhoc :
      (xs : List (ListItemSource Q)) → all is_adhoc xs ≡ true → keep (λ s. not (is_adhoc s)) xs ≡ []
  unfolding keep all
  keep_of_adhoc [] h = refl
  keep_of_adhoc (x ∷ xs) h = ground (arith, keep_of_adhoc xs)

  module _ (l i : ℕ) (u : Option String) where
    set_flags_keeps :
        (q : ListItem Q → Bool) (a b c : Option Bool) (xs : List (ListItem Q))
        → sources_at l i u (update_first q (set_flags a b c) xs) ≡ sources_at l i u xs
    unfolding sources_at update_first set_flags
    set_flags_keeps q a b c [] = refl
    set_flags_keeps q a b c (x ∷ xs) = ground (arith, set_flags_keeps q a b c xs)

    erase_keeps :
        (q : ListItem Q → Bool) (x : ListItem Q) (xs : List (ListItem Q))
        → find q xs ≡ some x
        → is_adhoc_only x ≡ true
        → meal_sources_at l i u (erase_first q xs) ≡ meal_sources_at l i u xs
    unfolding find erase_first meal_sources_at sources_at is_adhoc_only
    erase_keeps q x [] h k = cc
    erase_keeps q x (y ∷ xs) h k = ground (
      arith,
      erase_keeps q x xs,
      keep_of_adhoc x.sources,
      keep-append (λ s. not (is_adhoc s)) y.sources (sources_at l i u xs),
      keep-append (λ s. not (is_adhoc s)) y.sources (sources_at l i u (erase_first q xs)),
    )

module _ {Q : Type 0} where
  module _ (q : ListItem Q → Bool) (a b c : Option Bool) where
    any-set_flags :
        (l i : ℕ) (u : Option String) (xs : List (ListItem Q))
        → any (is_line l i u) (update_first q (set_flags a b c) xs) ≡ any (is_line l i u) xs
    unfolding any update_first set_flags is_line
    any-set_flags l i u [] = refl
    any-set_flags l i u (x ∷ xs) = ground (arith, any-set_flags l i u xs)

    set_flags-IsSound :
        (xs : List (ListItem Q)) → IsSound xs → IsSound (update_first q (set_flags a b c) xs)
    unfolding update_first set_flags
    set_flags-IsSound [] h = h
    set_flags-IsSound (x ∷ xs) ((h, hs), (k, ks)) =
        ground
          (arith, any-set_flags x.list_id x.ingredient_id x.unit xs, set_flags-IsSound xs (hs, ks))

  module _ (q : ListItem Q → Bool) where
    any-erase_first :
        (p : ListItem Q → Bool) (xs : List (ListItem Q))
        → any p xs ≡ false
        → any p (erase_first q xs) ≡ false
    unfolding any erase_first
    any-erase_first p [] h = refl
    any-erase_first p (x ∷ xs) h = ground (arith, any-erase_first p xs)

    erase_first-IsSound : (xs : List (ListItem Q)) → IsSound xs → IsSound (erase_first q xs)
    unfolding erase_first
    erase_first-IsSound [] h = h
    erase_first-IsSound (x ∷ xs) ((h, hs), (k, ks)) = ground (
      arith,
      any-erase_first (is_line x.list_id x.ingredient_id x.unit) xs h,
      erase_first-IsSound xs (hs, ks),
    )

-- The lines stay sound, and the contributions of planned meals stay as they are.
pub record KeepsMeals {Q : Type 0} (xs ys : List (ListItem Q)) : Type 0 where
  pub sound : IsSound xs → IsSound ys
  pub kept :
      IsSound xs
      → (l i : ℕ) (u : Option String) → meal_sources_at l i u ys ≡ meal_sources_at l i u xs

module _ {Q : Type 0} where
  KeepsMeals-refl : (xs : List (ListItem Q)) → KeepsMeals xs xs
  KeepsMeals-refl xs = record { sound = λ h. h; kept = λ h l i u. refl }

  put_source-KeepsMeals :
      (id l i : ℕ) (u : Option String) (s : ListItemSource Q) (xs : List (ListItem Q))
      → is_adhoc s ≡ true
      → KeepsMeals xs (put_source id l i u s xs)
  unfolding meal_sources_at
  put_source-KeepsMeals id l i u s xs adhoc = record {
    sound = put_source-IsSound id l i u s xs;
    kept = λ h l' i' u'. rw (sources_at-put_source id l i l' i' u u' s xs h.0) (
        unfold keep in
        ground (
          arith,
          keep-append (λ t. not (is_adhoc t)) (sources_at l' i' u' xs) (s ∷ []),
          append-nil (keep (λ t. not (is_adhoc t)) (sources_at l' i' u' xs)),
        ));
  }

  module _ (uuid4 : ℕ → ℕ) (hh : ℕ) where
    list_items-get_active_list :
        (db : Db Q) → (get_active_list uuid4 hh db).1.list_items ≡ db.list_items
    unfolding get_active_list
    list_items-get_active_list db = ground arith

    list_items-get_or_create :
        (c : Context) (name : String) (db db' : Db Q) (i : Ingredient)
        → get_or_create_ingredient uuid4 c.settings c.table c.clock c.naming hh name false db
          ≡ ok (i, db')
        → db'.list_items ≡ db.list_items
    unfolding get_or_create_ingredient
    list_items-get_or_create c name db db' i h = ground arith

    -- An ad-hoc add is a replay, or puts one ad-hoc contribution on a line.
    lines_of_add :
        (c : Context) (l : ℕ) (payload : AdhocItemIn Q) (db db' : Db Q) (created : Bool)
        → add_adhoc_item uuid4 c hh l payload db ≡ ok (created, db')
        → (db'.list_items ≡ db.list_items)
          ⊎ ((id : ℕ) × (i : ℕ) × (db'.list_items
                ≡ put_source id l i payload.unit (adhoc_source payload) db.list_items))
    unfolding add_adhoc_item
    lines_of_add c l payload db db' created h =
        elim (Result-cases (
          get_or_create_ingredient uuid4 c.settings c.table c.clock c.naming hh payload.name false
            db)) [
              | inr (x, g) ↦ inl (ground (arith, g))
              | inl ((ingredient, db₂), g) ↦
                  elim (Option-cases (find_replay l payload.id db.list_items)) [
                    | inr (x, e) ↦ inl (ground (arith, g, e))
                    | inl e ↦
                        let same = list_items-get_or_create c payload.name db db₂ ingredient g in
                        inr (
                          line_id uuid4 (reuse_id payload.id db₂.list_items) db₂.drawn,
                          ingredient.id,
                          rw (← same) (unfold write_adhoc in ground (arith, g, e)),
                        )
                  ]
            ]

    add-KeepsMeals :
        (c : Context) (l : ℕ) (payload : AdhocItemIn Q) (db db' : Db Q) (created : Bool)
        → add_adhoc_item uuid4 c hh l payload db ≡ ok (created, db')
        → KeepsMeals db.list_items db'.list_items
    add-KeepsMeals c l payload db db' created h = elim (lines_of_add c l payload db db' created h) [
      | inl e ↦ subst (KeepsMeals db.list_items) (sym e) (KeepsMeals-refl db.list_items)
      | inr (id, i, e) ↦
          subst (KeepsMeals db.list_items) (sym e)
            (put_source-KeepsMeals id l i payload.unit (adhoc_source payload) db.list_items refl)
    ]

    update-KeepsMeals :
        (id : ℕ) (a b d : Option Bool) (db db' : Db Q)
        → update_line hh id a b d db ≡ ok db'
        → KeepsMeals db.list_items db'.list_items
    unfolding update_line meal_sources_at
    update-KeepsMeals id a b d db db' h =
        let q = is_item db.shopping_lists hh id in
        let e : db'.list_items ≡ update_first q (set_flags a b d) db.list_items = ground arith in
        subst (KeepsMeals db.list_items) (sym e) (record {
          sound = set_flags-IsSound q a b d db.list_items;
          kept = λ k l i u.
              ap (keep (λ s. not (is_adhoc s))) (set_flags_keeps l i u q a b d db.list_items);
        })

    delete-KeepsMeals :
        (id : ℕ) (db db' : Db Q)
        → delete_line hh id db ≡ ok db'
        → KeepsMeals db.list_items db'.list_items
    unfolding delete_line
    delete-KeepsMeals id db db' h =
        let q = is_item db.shopping_lists hh id in
        elim (Option-cases (find q db.list_items)) [
          | inl e ↦ ground (arith, e)
          | inr (x, e) ↦
              let only : is_adhoc_only x ≡ true = ground (arith, e) in
              let lines : db'.list_items ≡ erase_first q db.list_items = ground (arith, e) in
              subst (KeepsMeals db.list_items) (sym lines) (record {
                sound = erase_first-IsSound q db.list_items;
                kept = λ k l i u. erase_keeps l i u q x db.list_items e only;
              })
        ]

    request-KeepsMeals :
        (c : Context) (request : Request Q) (db db' : Db Q)
        → handle uuid4 c hh request db ≡ ok db'
        → KeepsMeals db.list_items db'.list_items
    unfolding handle
    request-KeepsMeals c (update_item id a b d) db db' h = update-KeepsMeals id a b d db db' h
    request-KeepsMeals c (delete_item id) db db' h = delete-KeepsMeals id db db' h
    request-KeepsMeals c (add_item payload) db db' h =
        let (l, db₁) = get_active_list uuid4 hh db in
        let same = list_items-get_active_list db in
        elim (Result-cases (add_adhoc_item uuid4 c hh l.id payload db₁)) [
          | inr (x, g) ↦ ground (arith, g)
          | inl ((created, db₂), g) ↦
              let e : db₂ ≡ db' = ground (arith, g) in
              subst₂ (λ a b. KeepsMeals a b) same (ap (λ (d : Db Q). d.list_items) e)
                (add-KeepsMeals c l.id payload db₁ db₂ created g)
        ]

    -- Whatever a client asks of the shopping list, adding, changing or deleting a line: if it is
    -- done, sound lists stay sound, and every contribution of a planned meal, to every ingredient
    -- in every unit on every list, is as it was.
    pub meal_sources_at-handle :
        (c : Context) (request : Request Q) (db db' : Db Q) (l i : ℕ) (u : Option String)
        → IsSound db.list_items
        → handle uuid4 c hh request db ≡ ok db'
        → IsSound db'.list_items
          × (meal_sources_at l i u db'.list_items ≡ meal_sources_at l i u db.list_items)
    meal_sources_at-handle c request db db' l i u sound h =
        let k = request-KeepsMeals c request db db' h in (k.sound sound, k.kept sound l i u)
