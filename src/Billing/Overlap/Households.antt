-- ===== src/Billing/Overlap/Households.antt =====
-- What a second delivery of an event in backend/app/services/billing.py makes of a household.
use meals.Prelude.{
  ℕ, ◌≡◌, refl, ◌≤◌, ◌⊎◌, String, Option, none, some, List, [], ◌∷◌, arith, update_first, ok, err,
  ◌==◌, nat_eq, Option-cases, map, nat_beq_iff, Result-cases, inl, inr,
}
use meals.Models.Users.{Household}
use meals.Entitlements.{EntitlementError, grant, revoke, write_grant, snapshot_price, reset_dunning}
use meals.Billing.{Incoming, Offer, webhook_note, price_from, price_to_snapshot, grant_of}
use meals.Billing.Credit.{credit, credit_household}

-- A grant that was made is, at any later instant, made again without a change, or refused.
grant_again :
    (now later : ℕ) (o : Offer) (e : Incoming) (h h' : Household)
    → grant now (grant_of o e h) h ≡ ok h'
    → (grant later (grant_of o e h') h' ≡ ok h')
      ⊎ ((x : EntitlementError) × (grant later (grant_of o e h') h' ≡ err x))
unfolding grant write_grant snapshot_price reset_dunning grant_of price_from price_to_snapshot
grant_again now later o e h h' g = elim (Result-cases (grant later (grant_of o e h') h')) [
  | inr (x, r) ↦ inr (x, r)
  | inl (h'', r) ↦ inl (ground arith)
]

-- A grant that is refused as past stays refused.
pub refused_again :
    (now later : ℕ) (o : Offer) (e : Incoming) (h : Household) (x : EntitlementError)
    → now ≤ later
    → grant now (grant_of o e h) h ≡ err x
    → (y : EntitlementError) × (grant later (grant_of o e h) h ≡ err y)
unfolding grant grant_of
refused_again now later o e h x le g = elim (Result-cases (grant later (grant_of o e h) h)) [
  | inr (y, r) ↦ (y, r)
  | inl (h', r) ↦ absurd (ground arith)
]

revoke_again : (why : Option String) (h : Household) → revoke why (revoke why h) ≡ revoke why h
unfolding revoke reset_dunning
revoke_again none h = refl
revoke_again (some w) h = refl

credit_household_again :
    (now later : ℕ) (o : Offer) (e : Incoming) (h : Household)
    → now ≤ later
    → credit_household later o e (credit_household now o e h) ≡ credit_household now o e h
unfolding credit_household
credit_household_again now later o e h le = elim (Result-cases (grant now (grant_of o e h) h)) [
  | inl (h', g) ↦ elim (grant_again now later o e h h' g) [
    | inl r ↦ ground (arith, g, r, revoke_again (some (webhook_note e)) h)
    | inr (x, r) ↦ ground (arith, g, r, revoke_again (some (webhook_note e)) h)
  ]
  | inr (x, g) ↦
      let (y, r) = refused_again now later o e h x le g in
      ground (arith, g, r, revoke_again (some (webhook_note e)) h)
]

pub id-credit_household :
    (now : ℕ) (o : Offer) (e : Incoming) (h : Household) → (credit_household now o e h).id ≡ h.id
unfolding credit_household grant revoke write_grant snapshot_price reset_dunning
id-credit_household now o e h = ground arith

update_first_again :
    (now later : ℕ) (o : Offer) (e : Incoming) (id : ℕ) (hs : List Household)
    → now ≤ later
    → update_first
        (λ h. h.id == id)
        (credit_household later o e)
        (update_first (λ h. h.id == id) (credit_household now o e) hs)
      ≡ update_first (λ h. h.id == id) (credit_household now o e) hs
unfolding update_first
update_first_again now later o e id [] le = refl
update_first_again now later o e id (h ∷ hs) le = ground (
  arith,
  update_first_again now later o e id hs le,
  id-credit_household now o e h,
  credit_household_again now later o e h le,
)

pub credit_again :
    (now later : ℕ) (o : Offer) (e : Incoming) (hs : List Household)
    → now ≤ later
    → credit later o e (credit now o e hs) ≡ credit now o e hs
unfolding credit
credit_again now later o e hs le = elim (Option-cases e.household_id) [
  | inl n ↦ ground (arith, n)
  | inr (id, n) ↦ ground (arith, n, update_first_again now later o e id hs le)
]

-- The household but for the instant at which its price was set.
unfoldable pub but_price_set_at : Household → Household
but_price_set_at h = record h { price_set_at = none }

-- A grant that is made from the household as it was before it was made, at a later instant: what
-- differs is when the price was set.
pub grant_stale :
    (now later : ℕ) (o : Offer) (e : Incoming) (h h₁ h₂ : Household)
    → grant now (grant_of o e h) h ≡ ok h₁
    → grant later (grant_of o e h) h ≡ ok h₂
    → but_price_set_at h₂ ≡ but_price_set_at h₁
unfolding grant write_grant snapshot_price reset_dunning but_price_set_at
grant_stale now later o e h h₁ h₂ g k = ground arith

pub update_first_over :
    (id : ℕ) (a b : Household) (hs : List Household)
    → a.id ≡ id
    → update_first (λ h. h.id == id) (λ _. b) (update_first (λ h. h.id == id) (λ _. a) hs)
      ≡ update_first (λ h. h.id == id) (λ _. b) hs
unfolding update_first
update_first_over id a b [] at = refl
update_first_over id a b (h ∷ hs) at =
    ground (arith, update_first_over id a b hs at, nat_beq_iff a.id id)

pub map-update_first :
    (id : ℕ) (a b : Household) (hs : List Household)
    → but_price_set_at a ≡ but_price_set_at b
    → map but_price_set_at (update_first (λ h. h.id == id) (λ _. a) hs)
      ≡ map but_price_set_at (update_first (λ h. h.id == id) (λ _. b) hs)
unfolding update_first
map-update_first id a b [] same = refl
map-update_first id a b (h ∷ hs) same = ground (arith, map-update_first id a b hs same)
