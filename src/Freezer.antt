-- ===== src/Freezer.antt =====
-- backend/app/services/freezer.py and backend/app/routers/freezer.py: the batches in the freezer.
pub mod Stock
pub mod Taking
use mathlib.Core.Option
use meals.Prelude.{
  ℕ, suc, ◌+◌, ◌-◌, String, Bool, true, false, ◌&&◌, not, Option, none, some, List, [], ◌∷◌, ◌++◌,
  find, update_first, erase_first, ◌==◌, nat_eq, string_eq, if◌then◌else◌, Result, ok, err, ◌>>=◌,
  ◌>>◌, raise_if,
}
use meals.Models.{Db}
use meals.Models.Catalog.{Recipe}
use meals.Models.Planning.{Meal}
use meals.Models.Freezer.{FreezerItem}
use meals.Limits.Tiers.{Table, freezer_items}
use meals.Limits.Settings.{Settings}
use meals.Limits.Enforce.{Clock, EnforceError, enforce}

pub data FreezerError : Type 0 where
  not_found unknown_meal unknown_recipe blank_label : FreezerError
  limited : EnforceError → FreezerError

-- The one way in which a payload names its batch, as `_exactly_one_source` leaves it.
pub data Source : Type 0 where
  from_meal from_recipe : ℕ → Source
  labelled : String → Source

pub record FreezerAddIn : Type 0 where
  pub source : Source
  pub portions : ℕ
  pub note : Option String
  pub frozen_on : Option ℕ

-- A note that is `none` is set to null if `sets_note`, the field having been sent.
pub record FreezerItemUpdate : Type 0 where
  pub label : Option String
  pub portions : Option ℕ
  pub sets_note : Bool
  pub note : Option String
  pub frozen_on : Option ℕ

-- `db.get(FreezerItem, item_id)` with the test of its household
unfoldable pub get_item : ℕ → ℕ → List FreezerItem → Option FreezerItem
unfolding find
get_item household_id item_id items = elim (find (λ i. i.id == item_id) items) [
  | none ↦ none
  | some item ↦ if item.household_id == household_id then some item else none
]

-- What is left of the batch, and the rows.
unfoldable pub take_portions : FreezerItem → ℕ → List FreezerItem → ℕ × List FreezerItem
unfolding update_first erase_first
take_portions item portions items =
    let remaining = item.portions - portions in
    if remaining == 0 then (remaining, erase_first (λ i. i.id == item.id) items) else (
      remaining,
      update_first (λ i. i.id == item.id) (λ i. record i { portions = remaining }) items,
    )

-- `total_portions` of GET /freezer
unfoldable pub total_portions : ℕ → List FreezerItem → ℕ
total_portions household_id [] = 0
total_portions household_id (i ∷ items) =
    let rest = total_portions household_id items in
    if i.household_id == household_id then i.portions + rest else rest

-- `a or b` for an option
abbrev pub given_or {ℓ} : {A : Type ℓ} → Option A → A → A
given_or none b = b
given_or (some a) b = a

abbrev pub or_limited : Result EnforceError (Unit {0}) → Result FreezerError (Unit {0})
or_limited (ok u) = ok u
or_limited (err e) = err (limited e)

-- `str.strip` is a parameter.
module _ (strip : String → String) where
  -- `(note or "").strip() or None`
  unfoldable pub clean_note : Option String → Option String
  clean_note note = let text = strip (given_or note "") in if text == "" then none else some text

  unfoldable pub correct : FreezerItemUpdate → FreezerItem → FreezerItem
  unfolding clean_note
  correct payload i = record i {
    label = given_or (Option.map strip payload.label) i.label;
    portions = given_or payload.portions i.portions;
    note = if payload.sets_note then clean_note payload.note else i.note;
    frozen_on = given_or payload.frozen_on i.frozen_on;
  }

  abbrev pub blanks : Option String → Bool
  blanks none = false
  blanks (some label) = strip label == ""

  unfoldable pub new_batch :
      ℕ → ℕ → ℕ → Option ℕ → FreezerAddIn → String × Option ℕ × Option ℕ → FreezerItem
  unfolding clean_note
  new_batch id hh today user_id payload (label, meal_id, recipe_id) = record {
    id = id;
    household_id = hh;
    label = strip label;
    meal_id = meal_id;
    recipe_id = recipe_id;
    portions = payload.portions;
    note = clean_note payload.note;
    frozen_on = given_or payload.frozen_on today;
    created_by = user_id;
  }

  module _ {Q : Type 0} where
    -- The label, the meal and the recipe of a new batch.
    unfoldable pub resolve : ℕ → Source → Db Q → Result FreezerError (String × Option ℕ × Option ℕ)
    unfolding find
    resolve hh (from_meal id) db =
        elim (find (λ m. m.household_id == hh && m.id == id) db.meal_rows) [
          | none ↦ err unknown_meal
          | some m ↦ ok (m.name, some m.id, none)
        ]
    resolve hh (from_recipe id) db =
        elim (find (λ r. r.household_id == hh && r.id == id) db.recipes) [
          | none ↦ err unknown_recipe
          | some r ↦ ok (r.title, none, some r.id)
        ]
    resolve hh (labelled label) db =
        if strip label == "" then err blank_label else ok (label, none, none)

    unfoldable pub add_to_freezer :
        (ℕ → ℕ)
        → Settings
        → Table
        → Clock
        → ℕ
        → ℕ
        → Option ℕ
        → FreezerAddIn
        → Db Q
        → Result FreezerError (Db Q)
    unfolding resolve new_batch
    add_to_freezer uuid4 s table clock today hh user_id payload db = do
      named ← resolve hh payload.source db
      or_limited (enforce s table clock db hh freezer_items 1 none none)
      ok (record db {
        freezer_items =
            db.freezer_items ++ (new_batch (uuid4 db.drawn) hh today user_id payload named ∷ []);
        drawn = suc db.drawn;
      })

    unfoldable pub update_freezer_item :
        ℕ → ℕ → FreezerItemUpdate → Db Q → Result FreezerError (Db Q)
    unfolding get_item correct update_first
    update_freezer_item hh item_id payload db = elim (get_item hh item_id db.freezer_items) [
      | none ↦ err not_found
      | some item ↦
          if blanks payload.label
          then err blank_label
          else ok (record db {
            freezer_items = update_first (λ i. i.id == item.id) (correct payload) db.freezer_items;
          })
    ]

module _ {Q : Type 0} where
  -- The answer is what is left of the batch.
  unfoldable pub take_from_freezer : ℕ → ℕ → ℕ → Db Q → Result FreezerError (ℕ × Db Q)
  unfolding get_item take_portions
  take_from_freezer hh item_id portions db = elim (get_item hh item_id db.freezer_items) [
    | none ↦ err not_found
    | some item ↦
        let (remaining, items) = take_portions item portions db.freezer_items in
        ok (remaining, record db { freezer_items = items })
  ]

  unfoldable pub remove_from_freezer : ℕ → ℕ → Db Q → Result FreezerError (Db Q)
  unfolding get_item erase_first
  remove_from_freezer hh item_id db = elim (get_item hh item_id db.freezer_items) [
    | none ↦ err not_found
    | some item ↦
        ok (record db { freezer_items = erase_first (λ i. i.id == item.id) db.freezer_items })
  ]
