-- ===== src/Shopping/Adhoc.antt =====
-- backend/app/services/shopping.py: ad-hoc lines, and the end of a shop.
use meals.Prelude.{
  ℕ, suc, String, Bool, true, false, ◌&&◌, Option, none, some, List, find, any, update_first, ◌==◌,
  nat_eq, string_eq, option_eq, if◌then◌else◌, Result, ok, ◌>>=◌,
}
use meals.Models.{Db}
use meals.Models.Catalog.{Ingredient}
use meals.Models.Shopping.{ShoppingList, archived, ListItem, ListItemSource}
use meals.Limits.Tiers.{Table}
use meals.Limits.Settings.{Settings}
use meals.Limits.Enforce.{Clock, EnforceError}
use meals.Catalog.{Naming, get_or_create_ingredient}
use meals.Shopping.{put_source, has_line, new_list}

-- schemas/shopping.py, behind its validation
pub record AdhocItemIn (Q : Type 0) : Type 0 where
  pub id : Option ℕ
  pub name : String
  pub quantity : Option Q
  pub unit : Option String

-- What the deployment fixes for a request.
pub record Context : Type 0 where
  pub settings : Settings
  pub table : Table
  pub clock : Clock
  pub naming : Naming

module _ {Q : Type 0} where
  abbrev pub adhoc_source : AdhocItemIn Q → ListItemSource Q
  adhoc_source payload = record {
    plan_meal_id = none;
    recipe_id = none;
    quantity = payload.quantity;
    client_key = payload.id;
  }

  -- A line of the list with the contribution that the client has numbered so.
  unfoldable pub is_replay : ℕ → ℕ → ListItem Q → Bool
  unfolding any
  is_replay list_id key item =
      item.list_id == list_id && any (λ s. s.client_key == some key) item.sources

  unfoldable pub find_replay : ℕ → Option ℕ → List (ListItem Q) → Option (ListItem Q)
  unfolding find is_replay
  find_replay list_id none items = none
  find_replay list_id (some key) items = find (is_replay list_id key) items

  -- Whether a new line takes the client's id: it has one, and no line of any list has it.
  unfoldable pub reuse_id : Option ℕ → List (ListItem Q) → Option ℕ
  unfolding any
  reuse_id none items = none
  reuse_id (some key) items = if any (λ item. item.id == key) items then none else some key

abbrev pub line_id : (ℕ → ℕ) → Option ℕ → ℕ → ℕ
line_id uuid4 none drawn = uuid4 drawn
line_id uuid4 (some key) drawn = key

abbrev pub is_given : Option ℕ → Bool
is_given none = false
is_given (some _) = true

module _ {Q : Type 0} (uuid4 : ℕ → ℕ) where
  -- The writes for a request that is no replay.
  unfoldable pub write_adhoc : ℕ → AdhocItemIn Q → Ingredient × Db Q → Db Q
  unfolding reuse_id put_source has_line
  write_adhoc list_id payload (ingredient, db) =
      let reused = reuse_id payload.id db.list_items in
      record db {
        list_items =
            put_source (line_id uuid4 reused db.drawn) list_id ingredient.id payload.unit
              (adhoc_source payload) db.list_items;
        drawn =
            if has_line list_id ingredient.id payload.unit db.list_items
            then db.drawn
            else if is_given reused
            then db.drawn
            else suc db.drawn;
      }

  -- The Boolean is `created_new_source`.
  unfoldable pub add_adhoc_item :
      Context → ℕ → ℕ → AdhocItemIn Q → Db Q → Result EnforceError (Bool × Db Q)
  unfolding find_replay write_adhoc
  add_adhoc_item c household_id list_id payload db =
      elim (find_replay list_id payload.id db.list_items) [
        | some _ ↦ ok (false, db)
        | none ↦ do
          found ←
              get_or_create_ingredient uuid4 c.settings c.table c.clock c.naming household_id
                payload.name false db
          ok (true, write_adhoc list_id payload found)
      ]

  -- The list that was active is archived, and a fresh one takes its place.
  unfoldable pub archive_and_replace : ℕ → ShoppingList → Db Q → ShoppingList × Db Q
  unfolding update_first new_list
  archive_and_replace now shopping_list db = new_list uuid4 shopping_list.household_id (record db {
    shopping_lists =
        update_first (λ l. l.id == shopping_list.id)
          (λ l. record l { status = archived; archived_at = some now }) db.shopping_lists;
  })
