-- ===== src/Tests/Supermarkets.antt =====
-- Runs of the aisle orders.
use meals.Prelude.{string_eq, true, not, keep, ◌++◌, ◌≡◌, refl, [], ◌∷◌, mem}
use meals.Supermarkets.{aisle_emojis, effective_aisle_order, count_of, invalid_aisle_order_detail}
use meals.Supermarkets.Saved.{effective_of_valid}
use meals.Supermarkets.Complete.{are_distinct, count_of-effective_aisle_order}

count_of-effective_aisle_order_example :
    count_of "🧊" (effective_aisle_order aisle_emojis ("🧊" ∷ "gone" ∷ "🧊" ∷ []))
    ≡ count_of "🧊" aisle_emojis
unfolding are_distinct mem
count_of-effective_aisle_order_example =
    count_of-effective_aisle_order aisle_emojis "🧊" ("🧊" ∷ "gone" ∷ "🧊" ∷ []) refl

effective_of_valid_example :
    (keep (λ e. not (mem e aisle_emojis)) ("🧊" ∷ "🥬" ∷ []) ≡ [])
    × (are_distinct ("🧊" ∷ "🥬" ∷ []) ≡ true)
    × (effective_aisle_order aisle_emojis ("🧊" ∷ "🥬" ∷ [])
        ≡ ("🧊" ∷ "🥬" ∷ []) ++ keep (λ e. not (mem e ("🧊" ∷ "🥬" ∷ []))) aisle_emojis)
unfolding invalid_aisle_order_detail keep mem count_of
effective_of_valid_example = effective_of_valid aisle_emojis ("🧊" ∷ "🥬" ∷ []) refl
