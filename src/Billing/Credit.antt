-- ===== src/Billing/Credit.antt =====
-- What an event of backend/app/services/billing.py is to do to the households, without the ledger.
use meals.Prelude.{
  ℕ, ◌≡◌, refl, ◌⊎◌, String, true, false, Option, none, some, List, arith, update_first, Bool, ok,
  err, ◌==◌, nat_eq, string_eq, beq_refl, inl, inr,
}
use meals.Models.Users.{Household}
use meals.Models.Billing.{Outcome}
use meals.Entitlements.{grant, revoke}
use meals.Billing.{
  Incoming, Action, grants, revokes, ignores, Offer, is_event, ledger_row, is_dangling,
  webhook_note, grant_of,
}

-- Whether an event is only recorded, on a household that is not there.
unfoldable pub is_stray : Incoming → List Household → Bool
unfolding is_dangling
is_stray e hs = elim e.action [ ignores ↦ is_dangling e.household_id hs | other ↦ false ]

-- The abstract effect of an event on the households: it knows of no ledger.
unfoldable pub credit_household : ℕ → Offer → Incoming → Household → Household
credit_household now o e h = elim e.action [
  | ignores ↦ h
  | grants ↦ elim e.renews_at [
    | none ↦ h
    | some _ ↦ elim (grant now (grant_of o e h) h) [ ok h' ↦ h' | err _ ↦ h ]
  ]
  | revokes ↦ revoke (some (webhook_note e)) h
]

unfoldable pub credit : ℕ → Offer → Incoming → List Household → List Household
unfolding update_first credit_household
credit now o e hs = elim e.household_id [
  | none ↦ hs
  | some id ↦ update_first (λ h. h.id == id) (credit_household now o e) hs
]

pub id-grant :
    (now : ℕ) (o : Offer) (e : Incoming) (h h' : Household)
    → grant now (grant_of o e h) h ≡ ok h'
    → h'.id ≡ h.id
unfolding grant
id-grant now o e h h' g = ground arith

pub id-revoke : (note : Option String) (h : Household) → (revoke note h).id ≡ h.id
unfolding revoke
id-revoke why h = refl

pub is_event-ledger_row :
    (e : Incoming) (outcome : Outcome) (id : Option ℕ) → is_event e (ledger_row e outcome id) ≡ true
unfolding is_event ledger_row
is_event-ledger_row e outcome id = ground (arith, beq_refl e.processor, beq_refl e.event_id)

pub Action-cases : (a : Action) → (a ≡ ignores) ⊎ (a ≡ grants) ⊎ (a ≡ revokes)
Action-cases ignores = inl refl
Action-cases grants = inr (inl refl)
Action-cases revokes = inr (inr refl)
