-- ===== src/Tests/Shopping.antt =====
-- Runs of the shopping list.
use meals.Prelude.{
  ℕ, ◌≡◌, refl, Bool, true, false, none, some, [], ◌∷◌, keep, any, find, update_where, ok, nat_eq,
}
use meals.Models.{Db}
use meals.Shopping.{
  is_line, put_source, remove_sources, sources_at, recipe_contribution, loose_contribution,
  recipe_lines, link_contributions, meal_contributions, get_active_list, add_meal_contributions,
  remove_meal_contributions,
}
use meals.Shopping.Lines.{IsSound}
use meals.Shopping.Adding.{needs, add_meal_contributions-IsSound, sources_at-add_meal_contributions}
use meals.Shopping.Removal.{sources_at-remove_sources}
use meals.Shopping.RoundTrip.{untick, untick_needed, remove-add_meal_contributions}
use meals.Shopping.Adhoc.{find_replay, is_replay, reuse_id, write_adhoc, add_adhoc_item}
use meals.Shopping.Requests.{add_item, handle}
use meals.Shopping.Replay.{add_adhoc_item_again, add_adhoc_item_never_refused}
use meals.Shopping.Kept.{meal_sources_at, meal_sources_at-handle}
use meals.Catalog.{
  identity_of_name, has_key, has_name, find_ingredient, new_ingredient, insert_ingredient,
  get_or_create_ingredient,
}
use meals.Tests.Data.{natural_amount, store, curry_night, line, need, ids, deployed, candles, got}

store-IsSound : IsSound store.list_items
unfolding any is_line
store-IsSound = ((refl, tt), (refl, tt))

remove-add_meal_contributions_example :
    (remove_meal_contributions 7 70 (add_meal_contributions ids 7 70 curry_night store)).list_items
    ≡ line 60 50 (some "tin") false (need none 1 ∷ []) ∷ []
unfolding untick_needed untick is_line update_where meal_contributions link_contributions
    recipe_lines recipe_contribution loose_contribution find any
remove-add_meal_contributions_example =
    remove-add_meal_contributions ids 7 70 curry_night store store-IsSound (refl, tt)

meal_sources_at-handle_example :
    IsSound (got store (handle ids deployed 1 (add_item candles) store)).list_items
    × (meal_sources_at 7 50
          (some "tin")
          (got store (handle ids deployed 1 (add_item candles) store)).list_items
        ≡ meal_sources_at 7 50 (some "tin") store.list_items)
unfolding handle get_active_list find add_adhoc_item find_replay is_replay any
    get_or_create_ingredient find_ingredient has_key has_name identity_of_name insert_ingredient
    new_ingredient write_adhoc reuse_id put_source is_line
meal_sources_at-handle_example =
    meal_sources_at-handle ids 1 deployed (add_item candles) store
      (got store (handle ids deployed 1 (add_item candles) store)) 7 50 (some "tin") store-IsSound
      refl

sources_at-add_meal_contributions_example :
    sources_at 7 50 (some "tin") (add_meal_contributions ids 7 70 curry_night store).list_items
    ≡ need none 1
      ∷ record { plan_meal_id = some 70; recipe_id = some 30; quantity = some 6; client_key = none }
      ∷ []
unfolding sources_at is_line needs keep meal_contributions link_contributions recipe_lines
    recipe_contribution loose_contribution find
sources_at-add_meal_contributions_example =
    sources_at-add_meal_contributions ids 7 70 curry_night store store-IsSound 7 50 (some "tin")

add_meal_contributions-IsSound_example :
    IsSound (add_meal_contributions ids 7 70 curry_night store).list_items
add_meal_contributions-IsSound_example =
    add_meal_contributions-IsSound ids 7 70 curry_night store store-IsSound

sources_at-remove_sources_example :
    sources_at 7 50 none
      (remove_sources 7 70 (line 60 50 none true (need (some 70) 2 ∷ need none 1 ∷ []) ∷ []))
    ≡ need none 1 ∷ []
unfolding sources_at is_line keep
sources_at-remove_sources_example =
    sources_at-remove_sources 7 70 7 50 none
      (line 60 50 none true (need (some 70) 2 ∷ need none 1 ∷ []) ∷ [])

add_adhoc_item_again_example :
    add_adhoc_item ids deployed 1 7 candles
      (got (true, store) (add_adhoc_item ids deployed 1 7 candles store)).1
    ≡ ok (false, (got (true, store) (add_adhoc_item ids deployed 1 7 candles store)).1)
unfolding add_adhoc_item find find_replay is_replay any get_or_create_ingredient find_ingredient
    has_key has_name identity_of_name insert_ingredient new_ingredient write_adhoc reuse_id
    put_source is_line
add_adhoc_item_again_example =
    add_adhoc_item_again ids deployed 1 7 candles store
      (got (true, store) (add_adhoc_item ids deployed 1 7 candles store)).1 true 900 refl refl

add_adhoc_item_never_refused_example :
    (r : Bool × Db ℕ) × (add_adhoc_item ids deployed 1 7 candles store ≡ ok r)
add_adhoc_item_never_refused_example = add_adhoc_item_never_refused ids deployed 1 7 candles store
