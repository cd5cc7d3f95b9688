-- ===== src/Shopping/Replay.antt =====
-- A retried ad-hoc add changes nothing, and an ad-hoc add is never refused.
use meals.Prelude.{
  ℕ, ◌≡◌, ◌≢◌, String, Bool, true, false, Option, none, some, List, [], ◌∷◌, arith, find, any,
  any-append, find_of_any, nat_eq, option_eq, beq_refl, ok, Option-cases, Result-cases, Bool-cases,
  inl, inr,
}
use meals.Models.{Db}
use meals.Models.Catalog.{Ingredient}
use meals.Models.Shopping.{ListItem, ListItemSource}
use meals.Catalog.{identity_of_name, find_ingredient, insert_ingredient, get_or_create_ingredient}
use meals.Shopping.{is_line, put_source, surface, new_line}
use meals.Shopping.Keys.{line_key, put_source-cons}
use meals.Shopping.Lines.{put_source-nil}
use meals.Shopping.Adhoc.{
  AdhocItemIn, Context, adhoc_source, is_replay, find_replay, reuse_id, line_id, write_adhoc,
  add_adhoc_item,
}

module _ {Q : Type 0} (id l i : ℕ) (u : Option String) (key : ℕ) (s : ListItemSource Q)
    (numbered : s.client_key ≡ some key) where
  is_replay-surface :
      (x : ListItem Q) → is_line l i u x ≡ true → is_replay l key (surface s x) ≡ true
  unfolding is_replay surface
  is_replay-surface x e =
      rw any-append (unfold any in ground (arith, (line_key l i u x e).0, beq_refl key, numbered))

  is_replay-put_source :
      (xs : List (ListItem Q)) → any (is_replay l key) (put_source id l i u s xs) ≡ true
  unfolding any
  is_replay-put_source [] =
      rw put_source-nil (unfold is_replay new_line in ground (arith, beq_refl key, numbered))
  is_replay-put_source (x ∷ xs) = rw put_source-cons (elim (Bool-cases (is_line l i u x)) [
    | inl e ↦ rw e (ground (arith, is_replay-surface x e))
    | inr e ↦ rw e (ground (arith, is_replay-put_source xs))
  ])

find_replay-numbered :
    {Q : Type 0} (l key : ℕ) (id : Option ℕ) (items : List (ListItem Q))
    → id ≡ some key
    → find_replay l id items ≡ find (is_replay l key) items
unfolding find_replay
find_replay-numbered l key id items e = rw (e, find_replay)

get_or_create_uncounted :
    {Q : Type 0} (uuid4 : ℕ → ℕ) (c : Context) (hh : ℕ) (name : String) (db : Db Q)
    → (r : Ingredient × Db Q) × (get_or_create_ingredient uuid4 c.settings c.table c.clock c.naming
          hh name false db
        ≡ ok r)
unfolding get_or_create_ingredient
get_or_create_uncounted uuid4 c hh name db =
    elim (Option-cases (find_ingredient hh (identity_of_name c.naming name) db.ingredients)) [
      | inr (i, e) ↦ ((i, db), rw (get_or_create_ingredient, e))
      | inl e ↦ (insert_ingredient uuid4 c.naming hh name db, rw (get_or_create_ingredient, e))
    ]

module _ {Q : Type 0} (uuid4 : ℕ → ℕ) (c : Context) (hh l : ℕ) (payload : AdhocItemIn Q) where
  find_replay-write_adhoc :
      (key : ℕ) (found : Ingredient × Db Q)
      → payload.id ≡ some key
      → find_replay l payload.id (write_adhoc uuid4 l payload found).list_items ≢ none
  unfolding write_adhoc
  find_replay-write_adhoc key (ingredient, db) e =
      let reused = reuse_id payload.id db.list_items in
      let id = line_id uuid4 reused db.drawn in
      let there =
        is_replay-put_source id l ingredient.id payload.unit key (adhoc_source payload) e
          db.list_items in
      rw (find_replay-numbered l key payload.id _ e) (find_of_any (is_replay l key) _ there)

  -- A client that numbers its add and sends it again, once the first was taken, gets the answer
  -- "nothing new", and the whole database stays as the first left it.
  pub add_adhoc_item_again :
      (db db' : Db Q) (created : Bool) (key : ℕ)
      → payload.id ≡ some key
      → add_adhoc_item uuid4 c hh l payload db ≡ ok (created, db')
      → add_adhoc_item uuid4 c hh l payload db' ≡ ok (false, db')
  unfolding add_adhoc_item
  add_adhoc_item_again db db' created key e h =
      elim (Result-cases (
        get_or_create_ingredient uuid4 c.settings c.table c.clock c.naming hh payload.name false
          db)) [
            | inl (found, g) ↦ ground (arith, g, find_replay-write_adhoc key found e)
            | inr (x, g) ↦ ground (arith, g)
          ]

  -- No limit refuses an ad-hoc add, on any server and for any household.
  pub add_adhoc_item_never_refused :
      (db : Db Q) → (r : Bool × Db Q) × (add_adhoc_item uuid4 c hh l payload db ≡ ok r)
  unfolding add_adhoc_item
  add_adhoc_item_never_refused db = elim (Option-cases (find_replay l payload.id db.list_items)) [
    | inr (item, e) ↦ ((false, db), rw (add_adhoc_item, e))
    | inl e ↦
        let (found, g) = get_or_create_uncounted uuid4 c hh payload.name db in
        ((true, write_adhoc uuid4 l payload found), rw (add_adhoc_item, e, g))
  ]
