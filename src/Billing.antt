-- ===== src/Billing.antt =====
-- backend/app/services/billing.py, "applying": a webhook that was verified and read becomes an
-- entitlement.
pub mod Credit
pub mod Ledger
pub mod Deliveries
pub mod Overlap
pub mod Signature
pub mod Payload
pub mod Webhook
use meals.Prelude.{
  ℕ, String, Bool, true, false, ◌&&◌, Option, none, some, List, [], ◌∷◌, ◌++◌, find, any,
  update_first, ◌==◌, nat_eq, string_eq, if◌then◌else◌, Result, ok, err, concat,
}
use meals.Models.{Db}
use meals.Models.Users.{Household}
use meals.Models.Billing.{
  BillingEvent, Outcome, granted, revoked, ignored, duplicate, orphan, refused,
}
use meals.Entitlements.{Grant, keep_existing_price, grant, revoke, EntitlementError, is_none}

pub data Action : Type 0 where
  grants revokes ignores : Action

pub record Incoming : Type 0 where
  pub processor : String
  pub event_id : String
  pub event_type : String
  pub action : Action
  pub household_id : Option ℕ
  pub renews_at : Option ℕ
  pub price_pence : Option ℕ
  pub price_currency : Option String
  pub customer_id : Option String

-- The settings of backend/app/config.py that the applying reads.
pub record Offer : Type 0 where
  pub billing_price_pence : Option ℕ
  pub billing_price_currency : String

-- The ledger's unique key, as `_find_event` asks for it.
unfoldable pub is_event : Incoming → BillingEvent → Bool
is_event e row = row.processor == e.processor && row.event_id == e.event_id

unfoldable pub already_recorded : Incoming → List BillingEvent → Bool
unfolding any is_event
already_recorded e rows = any (is_event e) rows

unfoldable pub ledger_row : Incoming → Outcome → Option ℕ → BillingEvent
ledger_row e outcome household_id = record {
  processor = e.processor;
  event_id = e.event_id;
  event_type = e.event_type;
  outcome = outcome;
  household_id = household_id;
}

-- `_price_to_snapshot`
unfoldable pub price_to_snapshot : Offer → Household → Option ℕ × Option String
price_to_snapshot o h =
    if is_none h.price_pence
    then elim o.billing_price_pence [
      | none ↦ (none, none)
      | some price ↦ (some price, some o.billing_price_currency)
    ]
    else (none, none)

-- `_price_from`
unfoldable pub price_from : Offer → Incoming → Household → Option ℕ × Option String
unfolding price_to_snapshot
price_from o e h = elim e.price_pence [
  | some price ↦ (some price, e.price_currency)
  | none ↦ price_to_snapshot o h
]

-- `f"{event.event_type} via {event.processor}"`
abbrev pub webhook_note : Incoming → String
webhook_note e = concat e.event_type (concat " via " e.processor)

-- The arguments of `entitlements.grant`.
unfoldable pub grant_of : Offer → Incoming → Household → Grant
unfolding price_from
grant_of o e h = record {
  tier = "paid";
  until = e.renews_at;
  source = e.processor;
  note = some (webhook_note e);
  price_pence = (price_from o e h).0;
  price_currency = (price_from o e h).1;
  customer_id = e.customer_id;
  price_conflict = keep_existing_price;
}

-- The `IntegrityError` of a commit that `_record` raises again.
pub data LedgerError : Type 0 where
  foreign_key : LedgerError

-- Whether a key of a household names no row, which the foreign key of the ledger refuses.
unfoldable pub is_dangling : Option ℕ → List Household → Bool
unfolding find
is_dangling none hs = false
is_dangling (some id) hs = elim (find (λ h. h.id == id) hs) [ none ↦ true | some _ ↦ false ]

module _ {Q : Type 0} where
  -- `_record`: a row that the unique key of the ledger refuses is read as a duplicate; one that the
  -- foreign key of the household refuses is not, and nothing is written.
  unfoldable pub write_ledger :
      Incoming → Outcome → Option ℕ → Db Q → Result LedgerError (Outcome × Db Q)
  unfolding already_recorded ledger_row is_dangling
  write_ledger e outcome household_id db =
      if already_recorded e db.billing_events
      then ok (duplicate, db)
      else if is_dangling household_id db.households
      then err foreign_key
      else ok (
        outcome,
        record db {
          billing_events = db.billing_events ++ (ledger_row e outcome household_id ∷ []);
        },
      )

  unfoldable pub put_household : Household → Db Q → Db Q
  unfolding update_first
  put_household h db = record db {
    households = update_first (λ x. x.id == h.id) (λ _. h) db.households;
  }

  -- A change that the entitlements refuse writes nothing.
  unfoldable pub settle :
      Incoming
      → Outcome
      → Result EntitlementError Household
      → Db Q
      → Result LedgerError (Outcome × Db Q)
  unfolding write_ledger put_household
  settle e outcome (ok h) db = write_ledger e outcome e.household_id (put_household h db)
  settle e outcome (err _) db = write_ledger e refused e.household_id db

  -- The `try` block of `handle`, for a household that is there.
  unfoldable pub settle_household :
      ℕ → Offer → Incoming → Household → Db Q → Result LedgerError (Outcome × Db Q)
  unfolding settle grant_of
  settle_household now o e h db = elim e.action [
    | ignores ↦ write_ledger e ignored e.household_id db
    | grants ↦ elim e.renews_at [
      | none ↦ write_ledger e refused e.household_id db
      | some _ ↦ settle e granted (grant now (grant_of o e h) h) db
    ]
    | revokes ↦ settle e revoked (ok (revoke (some (webhook_note e)) h)) db
  ]

  -- Everything in `handle` behind the check for a duplicate.
  unfoldable pub finish : ℕ → Offer → Incoming → Db Q → Result LedgerError (Outcome × Db Q)
  unfolding write_ledger settle_household find
  finish now o e db = elim e.action [
    | ignores ↦ write_ledger e ignored e.household_id db
    | other ↦ elim e.household_id [
      | none ↦ write_ledger e orphan none db
      | some id ↦ elim (find (λ h. h.id == id) db.households) [
        | none ↦ write_ledger e orphan none db
        | some h ↦ settle_household now o e h db
      ]
    ]
  ]

  -- `handle`, of a body that `verify` and `parse` accept.
  unfoldable pub handle_event : ℕ → Offer → Incoming → Db Q → Result LedgerError (Outcome × Db Q)
  unfolding already_recorded finish
  handle_event now o e db =
      if already_recorded e db.billing_events then ok (duplicate, db) else finish now o e db
