-- ===== src/Freezer/Stock.antt =====
-- The batches of a freezer always hold food.
use meals.Prelude.{
  ℕ, ◌<◌, ◌-◌, ◌≡◌, String, Bool, Option, none, some, List, [], ◌∷◌, ◌++◌, All, All-append, arith,
  update_first, erase_first, Result, ok, err, Option-cases, Result-cases, inl, inr, ◌==◌, nat_eq,
  subst, sym, Bool-cases, nat_beq,
}
use meals.Models.{Db}
use meals.Models.Freezer.{FreezerItem}
use meals.Limits.Tiers.{Table}
use meals.Limits.Settings.{Settings}
use meals.Limits.Enforce.{Clock}
use meals.Freezer.{
  FreezerAddIn, FreezerItemUpdate, FreezerError, get_item, resolve, take_portions, correct,
  new_batch, add_to_freezer, update_freezer_item, take_from_freezer, remove_from_freezer,
}

-- The constraint `portions > 0` of the table.
abbrev pub HoldFood : List FreezerItem → Type 0
HoldFood items = All (λ i. 0 < i.portions) items

-- A request, as its validation leaves it: no count of portions is 0.
pub data FreezerRequest : Type 0 where
  adding : FreezerAddIn → FreezerRequest
  correcting : ℕ → FreezerItemUpdate → FreezerRequest
  taking : ℕ → ℕ → FreezerRequest
  removing : ℕ → FreezerRequest

abbrev pub IsCount : Option ℕ → Type 0
IsCount none = Unit {0}
IsCount (some n) = 0 < n

abbrev pub IsValid : FreezerRequest → Type 0
IsValid (adding payload) = 0 < payload.portions
IsValid (correcting id payload) = IsCount payload.portions
IsValid (taking id portions) = 0 < portions
IsValid (removing id) = Unit {0}

-- The answer is left out.
abbrev pub rows_of : {Q : Type 0} → Result FreezerError (ℕ × Db Q) → Result FreezerError (Db Q)
rows_of (ok (remaining, db)) = ok db
rows_of (err e) = err e

update_first-HoldFood :
    (p : FreezerItem → Bool) (f : FreezerItem → FreezerItem) (items : List FreezerItem)
    → ((i : FreezerItem) → 0 < i.portions → 0 < (f i).portions)
    → HoldFood items
    → HoldFood (update_first p f items)
unfolding update_first
update_first-HoldFood p f [] k h = h
update_first-HoldFood p f (i ∷ items) k (h, hs) =
    ground (arith, k i h, update_first-HoldFood p f items k hs)

erase_first-HoldFood :
    (p : FreezerItem → Bool) (items : List FreezerItem)
    → HoldFood items
    → HoldFood (erase_first p items)
unfolding erase_first
erase_first-HoldFood p [] h = h
erase_first-HoldFood p (i ∷ items) (h, hs) = ground (arith, erase_first-HoldFood p items hs)

take_portions-HoldFood :
    (item : FreezerItem) (portions : ℕ) (items : List FreezerItem)
    → HoldFood items
    → HoldFood (take_portions item portions items).1
unfolding take_portions
take_portions-HoldFood item portions items h =
    elim (Bool-cases (nat_beq (item.portions - portions) 0)) [
      | inl e ↦ rw e (erase_first-HoldFood (λ i. i.id == item.id) items h)
      | inr e ↦
          let some_left : 0 < item.portions - portions = ground (arith, e) in
          rw e (
            update_first-HoldFood (λ i. i.id == item.id)
              (λ i. record i { portions = item.portions - portions }) items (λ i k. some_left) h)
    ]

correct-HoldFood :
    (strip : String → String) (payload : FreezerItemUpdate)
    → IsCount payload.portions
    → (i : FreezerItem) → 0 < i.portions
    → 0 < (correct strip payload i).portions
unfolding correct
correct-HoldFood strip payload h i k = elim (Option-cases payload.portions) [
  | inl e ↦ rw e k
  | inr (n, e) ↦ rw e (rw e at h)
]

module _ (strip : String → String) (uuid4 : ℕ → ℕ) (s : Settings) (table : Table) (clock : Clock)
    (today hh : ℕ) (user_id : Option ℕ) {Q : Type 0} where
  unfoldable pub serve : FreezerRequest → Db Q → Result FreezerError (Db Q)
  unfolding take_from_freezer
  serve (adding payload) db = add_to_freezer strip uuid4 s table clock today hh user_id payload db
  serve (correcting id payload) db = update_freezer_item strip hh id payload db
  serve (taking id portions) db = rows_of (take_from_freezer hh id portions db)
  serve (removing id) db = remove_from_freezer hh id db

  -- No request, as its validation leaves it, leaves a batch without portions behind.
  pub serve-HoldFood :
      (request : FreezerRequest) (db db' : Db Q)
      → IsValid request
      → HoldFood db.freezer_items
      → serve request db ≡ ok db'
      → HoldFood db'.freezer_items
  unfolding serve add_to_freezer update_freezer_item take_from_freezer remove_from_freezer new_batch
  serve-HoldFood (adding payload) db db' v h e =
      elim (Result-cases (resolve strip hh payload.source db)) [
        | inr (x, r) ↦ ground (arith, r)
        | inl (named, r) ↦
            let batch = new_batch strip (uuid4 db.drawn) hh today user_id payload named in
            let rows : db'.freezer_items ≡ db.freezer_items ++ (batch ∷ []) = ground (arith, r) in
            subst HoldFood (sym rows) (
              All-append (λ (i : FreezerItem). 0 < i.portions) db.freezer_items (batch ∷ []) h
                (v, tt))
      ]
  serve-HoldFood (correcting id payload) db db' v h e =
      elim (Option-cases (get_item hh id db.freezer_items)) [
        | inl g ↦ ground (arith, g)
        | inr (item, g) ↦
            let rows : db'.freezer_items
                ≡ update_first (λ i. i.id == item.id) (correct strip payload) db.freezer_items =
              ground (arith, g) in
            subst HoldFood (sym rows) (
              update_first-HoldFood (λ i. i.id == item.id) (correct strip payload) db.freezer_items
                (correct-HoldFood strip payload v) h)
      ]
  serve-HoldFood (taking id portions) db db' v h e =
      elim (Option-cases (get_item hh id db.freezer_items)) [
        | inl g ↦ ground (arith, g)
        | inr (item, g) ↦
            let rows : db'.freezer_items ≡ (take_portions item portions db.freezer_items).1 =
              ground (arith, g) in
            subst HoldFood (sym rows) (take_portions-HoldFood item portions db.freezer_items h)
      ]
  serve-HoldFood (removing id) db db' v h e =
      elim (Option-cases (get_item hh id db.freezer_items)) [
        | inl g ↦ ground (arith, g)
        | inr (item, g) ↦
            let rows : db'.freezer_items ≡ erase_first (λ i. i.id == item.id) db.freezer_items =
              ground (arith, g) in
            subst HoldFood (sym rows)
              (erase_first-HoldFood (λ i. i.id == item.id) db.freezer_items h)
      ]
