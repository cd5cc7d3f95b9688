-- ===== src/Shopping/Requests.antt =====
-- backend/app/routers/shopping.py: the requests that change the lines of a list.
use meals.Prelude.{
  ℕ, Bool, ◌&&◌, Option, none, some, List, find, any, update_first, erase_first, ◌==◌, nat_eq,
  if◌then◌else◌, Result, ok, err,
}
use meals.Models.{Db}
use meals.Models.Shopping.{ShoppingList, ListItem}
use meals.Limits.Enforce.{EnforceError}
use meals.Shopping.{is_adhoc_only, get_active_list}
use meals.Shopping.Adhoc.{AdhocItemIn, Context, add_adhoc_item, archive_and_replace}

pub data RequestError : Type 0 where
  not_found needed_by_a_meal : RequestError
  limited : EnforceError → RequestError

pub data Request (Q : Type 0) : Type 0 where
  add_item : AdhocItemIn Q → Request Q
  -- the flags that the payload sets
  update_item : ℕ → Option Bool → Option Bool → Option Bool → Request Q
  delete_item : ℕ → Request Q

abbrev pub set_flag : Option Bool → Bool → Bool
set_flag none old = old
set_flag (some new) old = new

module _ {Q : Type 0} where
  -- The query of `_get_item`: the line by its id, on a list of the household.
  unfoldable pub is_item : List ShoppingList → ℕ → ℕ → ListItem Q → Bool
  unfolding any
  is_item lists household_id item_id item =
      item.id == item_id && any (λ l. l.id == item.list_id && l.household_id == household_id) lists

  unfoldable pub set_flags : Option Bool → Option Bool → Option Bool → ListItem Q → ListItem Q
  set_flags checked excluded staple_needed item = record item {
    checked = set_flag checked item.checked;
    excluded = set_flag excluded item.excluded;
    staple_needed = set_flag staple_needed item.staple_needed;
  }

  unfoldable pub update_line :
      ℕ → ℕ → Option Bool → Option Bool → Option Bool → Db Q → Result RequestError (Db Q)
  unfolding find update_first is_item set_flags
  update_line household_id item_id checked excluded staple_needed db =
      let query = is_item db.shopping_lists household_id item_id in
      elim (find query db.list_items) [
        | none ↦ err not_found
        | some _ ↦ ok (record db {
          list_items = update_first query (set_flags checked excluded staple_needed) db.list_items;
        })
      ]

  unfoldable pub delete_line : ℕ → ℕ → Db Q → Result RequestError (Db Q)
  unfolding find erase_first is_item is_adhoc_only
  delete_line household_id item_id db =
      let query = is_item db.shopping_lists household_id item_id in
      elim (find query db.list_items) [
        | none ↦ err not_found
        | some item ↦
            if is_adhoc_only item
            then ok (record db { list_items = erase_first query db.list_items })
            else err needed_by_a_meal
      ]

module _ {Q : Type 0} (uuid4 : ℕ → ℕ) where
  abbrev pub added : Result EnforceError (Bool × Db Q) → Result RequestError (Db Q)
  added (ok (created, db)) = ok db
  added (err e) = err (limited e)

  unfoldable pub handle : Context → ℕ → Request Q → Db Q → Result RequestError (Db Q)
  unfolding update_line delete_line get_active_list
  handle c household_id (add_item payload) db =
      let (active, db') = get_active_list uuid4 household_id db in
      added (add_adhoc_item uuid4 c household_id active.id payload db')
  handle c household_id (update_item item_id checked excluded staple_needed) db =
      update_line household_id item_id checked excluded staple_needed db
  handle c household_id (delete_item item_id) db = delete_line household_id item_id db

  -- POST /shopping-list/archive
  unfoldable pub archive_shopping_list : ℕ → ℕ → Db Q → Db Q
  unfolding get_active_list archive_and_replace
  archive_shopping_list now household_id db =
      let (active, db') = get_active_list uuid4 household_id db in
      let (fresh, end) = archive_and_replace uuid4 now active db' in end
