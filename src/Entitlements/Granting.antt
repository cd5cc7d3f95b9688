-- ===== src/Entitlements/Granting.antt =====
-- What `grant` refuses and what it writes.
use meals.Prelude.{ℕ, ◌≡◌, ◌↔◌, none, some, arith, ok, err, true, false, ◌&&◌}
use meals.Models.Users.{Household}
use meals.Limits.Tiers.{tier_of_name}
use meals.Entitlements.{
  Grant, grant, is_past, is_none, conflicting, refuses, or_old, not_a_tier, not_in_the_future,
  price_is_for_life,
}

-- `grant` refuses for three reasons, each checked only where those before it did not apply: a tier
-- that is not one, an end that is not to come, and a price that differs from the household's own
-- under the policy that refuses a change of price.
pub grant_refusals :
    (now : ℕ) (g : Grant) (h : Household)
    → let unknown = is_none (tier_of_name g.tier) in
      let past = is_past now g.until in
      let repriced = conflicting g.price_pence h.price_pence && refuses g.price_conflict in
      ((grant now g h ≡ err not_a_tier) ↔ (unknown ≡ true))
      × ((grant now g h ≡ err not_in_the_future) ↔ (unknown ≡ false) × (past ≡ true))
      × ((grant now g h ≡ err price_is_for_life)
          ↔ (unknown ≡ false) × (past ≡ false) × (repriced ≡ true))
unfolding grant
grant_refusals now g h = ground arith

-- A grant that is not refused puts the household on the tier until the given end, with the given
-- source; the note and the customer are replaced only by given ones; a price is recorded only where
-- there was none; and both marks of the dunning are cleared.
pub grant-ok_lem :
    (now : ℕ) (g : Grant) (h h' : Household)
    → grant now g h ≡ ok h'
    → (h'.tier ≡ g.tier)
      × (h'.paid_until ≡ g.until)
      × (h'.entitlement_source ≡ some g.source)
      × (h'.entitlement_note ≡ or_old g.note h.entitlement_note)
      × (h'.billing_customer_id ≡ or_old g.customer_id h.billing_customer_id)
      × (h'.price_pence ≡ or_old h.price_pence g.price_pence)
      × (h'.expiry_warned_at ≡ none)
      × (h'.lapse_notified_at ≡ none)
unfolding grant
grant-ok_lem now g h h' e = ground arith
