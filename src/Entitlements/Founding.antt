-- ===== src/Entitlements/Founding.antt =====
-- What no sequence of changes takes away: the founding price, and the customer at the processor.
use meals.Prelude.{◌⊎◌, ℕ, ℤ, ◌≡◌, ◌≢◌, String, Option, none, List, [], ◌∷◌, arith, Result, ok, err}
use meals.Models.Users.{Household}
use meals.Entitlements.{Grant, EntitlementError, grant, extend, revoke}

-- The writes of services/entitlements.py, each at its own instant.
pub data Change : Type 0 where
  granting : ℕ → Grant → Change
  extending : ℕ → Option ℤ → Option ℕ → Change
  revoking : Option String → Change

-- A refused change leaves the row as it was.
abbrev or_unchanged : Household → Result EntitlementError Household → Household
or_unchanged h (ok h') = h'
or_unchanged h (err _) = h

pub apply : Household → Change → Household
apply h (granting now g) = or_unchanged h (grant now g h)
apply h (extending now days until) = or_unchanged h (extend now days until h)
apply h (revoking why) = revoke why h

pub apply_all : Household → List Change → Household
apply_all h [] = h
apply_all h (c ∷ cs) = apply_all (apply h c) cs

-- A price stays with its currency and its date, and a customer stays some customer.
abbrev pub KeepsPrice : Household → Household → Type 0
KeepsPrice a b =
    ((a.price_pence ≡ none)
      ⊎ ((b.price_pence ≡ a.price_pence)
          × (b.price_currency ≡ a.price_currency)
          × (b.price_set_at ≡ a.price_set_at)))
    × ((a.billing_customer_id ≡ none) ⊎ (b.billing_customer_id ≢ none))
    × (b.id ≡ a.id)

apply-KeepsPrice : (h : Household) (c : Change) → KeepsPrice h (apply h c)
unfolding apply grant extend revoke
apply-KeepsPrice h (granting now g) = grind arith
apply-KeepsPrice h (extending now days until) = grind arith
apply-KeepsPrice h (revoking why) = grind arith

KeepsPrice-trans : (a b c : Household) → KeepsPrice a b → KeepsPrice b c → KeepsPrice a c
KeepsPrice-trans a b c (p, q, r) (p', q', r') = grind arith

-- Through any grants, extensions and revocations, refused ones included, a price that a household
-- has been given stays its price, with its currency and its date, and a household that is known to
-- the processor stays known to it.
pub apply_all-KeepsPrice : (h : Household) (cs : List Change) → KeepsPrice h (apply_all h cs)
unfolding apply_all
apply_all-KeepsPrice h [] = grind arith
apply_all-KeepsPrice h (c ∷ cs) =
    KeepsPrice-trans h (apply h c) (apply_all (apply h c) cs) (apply-KeepsPrice h c)
      (apply_all-KeepsPrice (apply h c) cs)
