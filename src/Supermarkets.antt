-- ===== src/Supermarkets.antt =====
-- backend/app/services/supermarkets.py: the order in which a household walks its shop.
pub mod Complete
pub mod Saved
use meals.Prelude.{
  ℕ, ltb, String, Bool, true, false, ◌&&◌, not, Option, none, some, List, [], ◌∷◌, ◌++◌, keep, find,
  length, mem, ◌==◌, nat_eq, string_eq, if◌then◌else◌,
}
use meals.Models.Shopping.{Supermarket}

-- `[emoji for emoji, _ in AISLES]` of backend/app/services/aisles.py
abbrev pub aisle_emojis : List String
aisle_emojis =
    "🥬" ∷ "🍞" ∷ "🥩" ∷ "❄\u{fe0f}" ∷ "🥛" ∷ "🥫" ∷ "🍝" ∷ "🌶\u{fe0f}" ∷ "🥤" ∷ "🍫" ∷ "🧊" ∷ "🧼" ∷ "🧴"
    ∷ "❓" ∷ []

unfoldable pub get_active_supermarket : ℕ → List Supermarket → Option Supermarket
unfolding find
get_active_supermarket household_id rows =
    find (λ s. s.household_id == household_id && s.is_active) rows

-- The vocabulary is an argument, so that a change of `AISLES` changes nothing else.
module _ (aisles : List String) where
  -- The loop over the stored order.
  unfoldable pub known_of : List String → List String → List String
  unfolding mem
  known_of known [] = known
  known_of known (emoji ∷ stored) =
      known_of (if mem emoji aisles && not (mem emoji known) then known ++ (emoji ∷ []) else known)
        stored

  -- `None` and the empty list are both no order.
  unfoldable pub effective_aisle_order : List String → List String
  unfolding known_of keep mem
  effective_aisle_order [] = aisles
  effective_aisle_order (emoji ∷ stored) =
      let known = known_of [] (emoji ∷ stored) in known ++ keep (λ e. not (mem e known)) aisles

-- `order.count(emoji)`
unfoldable pub count_of : String → List String → ℕ
unfolding keep
count_of emoji order = length (keep (λ e. e == emoji) order)

-- Why an order cannot be saved; of the text only the aisles that it names are modelled, the
-- repeated ones with their repetitions and in the order of the payload.
pub data InvalidOrder : Type 0 where
  unknown_aisles repeated_aisles : List String → InvalidOrder

unfoldable pub invalid_aisle_order_detail : List String → List String → Option InvalidOrder
unfolding keep mem count_of
invalid_aisle_order_detail aisles order = elim (keep (λ e. not (mem e aisles)) order) [
  | e ∷ es ↦ some (unknown_aisles (e ∷ es))
  | [] ↦ elim (keep (λ e. ltb 1 (count_of e order)) order) [
    | e ∷ es ↦ some (repeated_aisles (e ∷ es))
    | [] ↦ none
  ]
]
