-- ===== src/Entitlements.antt =====
-- backend/app/services/entitlements.py: what a household is entitled to, and its changes.
pub mod Founding
pub mod Expiry
pub mod Granting
use meals.Prelude.{
  ℕ, ◌+◌, ◌*◌, String, Bool, true, false, ◌&&◌, ◌||◌, not, ltb, leb, nat_beq, max, Option, none,
  some, List, [], ◌∷◌, Result, ok, err, ◌>>=◌, ◌>>◌, raise_if, if◌then◌else◌, ℤ, pos, pos_part,
  ltb_ℤ, keep, map, ◌==◌, string_eq, option_eq,
}
use meals.Models.Users.{Household}
use meals.Limits.Tiers.{LimitSet, tier_of_name}
use meals.Limits.Enforce.{day, effective_tier}

pub data State : Type 0 where
  permanent paid grace lapsed : State

pub data EntitlementError : Type 0 where
  not_a_tier not_in_the_future price_is_for_life : EntitlementError
  days_and_until days_not_positive : EntitlementError

-- `price_conflict`
pub data PriceConflict : Type 0 where
  refuse_price_change keep_existing_price : PriceConflict

-- Stored instants are UTC, so `_aware` changes no instant.
unfoldable pub grace_ends_at : ℕ → Household → Option ℕ
grace_ends_at grace_days h = elim h.paid_until [
  | none ↦ none
  | some until ↦ some (until + grace_days * day)
]

unfoldable pub state : ℕ → Household → ℕ → State
state grace_days h now = elim h.paid_until [
  | none ↦ permanent
  | some until ↦
      if ltb now until then paid else if ltb now (until + grace_days * day) then grace else lapsed
]

pub record Entitlement : Type 0 where
  pub household_id : ℕ
  pub household_name : String
  pub stored_tier : String
  pub effective_tier : LimitSet
  pub state : State
  pub paid_until : Option ℕ
  pub grace_ends_at : Option ℕ
  pub source : Option String
  pub note : Option String
  pub price_pence : Option ℕ
  pub price_currency : Option String
  pub lead_email : Option String

unfoldable pub describe : ℕ → Household → Option String → ℕ → Entitlement
describe grace_days h lead_email now = record {
  household_id = h.id;
  household_name = h.name;
  stored_tier = h.tier;
  effective_tier = effective_tier grace_days h now;
  state = state grace_days h now;
  paid_until = h.paid_until;
  grace_ends_at = grace_ends_at grace_days h;
  source = h.entitlement_source;
  note = h.entitlement_note;
  price_pence = h.price_pence;
  price_currency = h.price_currency;
  lead_email = lead_email;
}

unfoldable pub reset_dunning : Household → Household
reset_dunning h = record h { expiry_warned_at = none; lapse_notified_at = none }

-- `x if x is not None else old`
abbrev pub or_old {ℓ} : {A : Type ℓ} → Option A → Option A → Option A
or_old none old = old
or_old (some a) _ = some a

-- The keyword arguments of `grant`.
pub record Grant : Type 0 where
  pub tier : String
  pub until : Option ℕ
  pub source : String
  pub note : Option String
  pub price_pence : Option ℕ
  pub price_currency : Option String
  pub customer_id : Option String
  pub price_conflict : PriceConflict

-- `price_pence is not None and household.price_pence is not None and they differ`
abbrev pub conflicting : Option ℕ → Option ℕ → Bool
conflicting (some price) (some held) = not (nat_beq held price)
conflicting _ _ = false

abbrev pub refuses : PriceConflict → Bool
refuses refuse_price_change = true
refuses keep_existing_price = false

abbrev pub is_none {ℓ} : {A : Type ℓ} → Option A → Bool
is_none none = true
is_none (some _) = false

-- `until is not None and until <= now`
abbrev pub is_past : ℕ → Option ℕ → Bool
is_past now none = false
is_past now (some until) = leb until now

-- `price_currency or "GBP"`, which takes an empty text for none
unfoldable pub or_pounds : Option String → String
or_pounds none = "GBP"
or_pounds (some currency) = if currency == "" then "GBP" else currency

-- `if price_pence is not None and household.price_pence is None: …`
unfoldable pub snapshot_price : ℕ → Option ℕ → Option String → Household → Household
unfolding or_pounds
snapshot_price now (some price) currency h =
    if is_none h.price_pence
    then record h {
      price_pence = some price;
      price_currency = some (or_pounds currency);
      price_set_at = some now;
    }
    else h
snapshot_price now none currency h = h

-- The assignments of `grant`, behind its refusals.
unfoldable pub write_grant : ℕ → Grant → Household → Household
unfolding reset_dunning snapshot_price
write_grant now g h =
    let granted : Household = record h {
      tier = g.tier;
      paid_until = g.until;
      entitlement_source = some g.source;
      entitlement_note = or_old g.note h.entitlement_note;
    } in
    let priced = snapshot_price now g.price_pence g.price_currency granted in
    reset_dunning
      (record priced { billing_customer_id = or_old g.customer_id priced.billing_customer_id })

unfoldable pub grant : ℕ → Grant → Household → Result EntitlementError Household
unfolding write_grant
grant now g h = do
  raise_if (is_none (tier_of_name g.tier)) not_a_tier
  raise_if (is_past now g.until) not_in_the_future
  raise_if (conflicting g.price_pence h.price_pence && refuses g.price_conflict) price_is_for_life
  ok (write_grant now g h)

unfoldable pub extend_to : ℕ → Household → Household
unfolding reset_dunning
extend_to until h = reset_dunning (record h { paid_until = some until })

-- `max(now, paid_until)` if there is an expiry, and now if there is none
abbrev pub extension_base : ℕ → Option ℕ → ℕ
extension_base now none = now
extension_base now (some until) = max now until

-- The arguments are `days`, which may be negative, and `until`.
unfoldable pub extend : ℕ → Option ℤ → Option ℕ → Household → Result EntitlementError Household
unfolding extend_to
extend now none none h = err days_and_until
extend now (some days) (some until) h = err days_and_until
extend now (some days) none h =
    if ltb_ℤ (pos 0) days
    then ok (extend_to (extension_base now h.paid_until + pos_part days * day) h)
    else err days_not_positive
extend now none (some until) h =
    if leb until now then err not_in_the_future else ok (extend_to until h)

unfoldable pub revoke : Option String → Household → Household
unfolding reset_dunning
revoke note h = reset_dunning (record h {
  tier = "free";
  paid_until = none;
  entitlement_source = none;
  entitlement_note = or_old note h.entitlement_note;
})
