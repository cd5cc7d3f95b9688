-- ===== src/Tests/Entitlements.antt =====
-- Runs of the entitlements.
use meals.Prelude.{pos, ◌≡◌, ◌⊎◌, ◌+◌, ◌*◌, ◌≤◌, ◌<◌, refl, none, some, [], ◌∷◌}
use meals.Limits.Tiers.{free}
use meals.Limits.Enforce.{day, effective_tier, known_tier}
use meals.Entitlements.{
  paid, grace, lapsed, Grant, refuse_price_change, state, extend, reset_dunning, extend_to,
}
use meals.Entitlements.Founding.{
  granting, extending, revoking, apply_all, KeepsPrice, apply_all-KeepsPrice,
}
use meals.Entitlements.Expiry.{IsFrom, IsFromOld, state-effective_tier, extend_days}
use meals.Tests.Data.{home, got}

abbrev year : Grant
year = record {
  tier = "paid";
  until = some 2000;
  source = "stripe";
  note = none;
  price_pence = some 900;
  price_currency = some "GBP";
  customer_id = none;
  price_conflict = refuse_price_change;
}

apply_all-KeepsPrice_example :
    KeepsPrice home
      (apply_all home (granting 500 year ∷ extending 600 (some (pos 30)) none ∷ revoking none ∷ []))
apply_all-KeepsPrice_example =
    apply_all-KeepsPrice home
      (granting 500 year ∷ extending 600 (some (pos 30)) none ∷ revoking none ∷ [])

state-effective_tier_example :
    ((1001 < 1000)
      × (state 14 home 1001 ≡ paid)
      × (effective_tier 14 home 1001 ≡ known_tier "free"))
    ⊎ ((1000 ≤ 1001)
        × (1001 < 1000 + 14 * day)
        × (state 14 home 1001 ≡ grace)
        × (effective_tier 14 home 1001 ≡ known_tier "free"))
    ⊎ ((1001 ≡ 1000 + 14 * day)
        × (state 14 home 1001 ≡ lapsed)
        × (effective_tier 14 home 1001 ≡ known_tier "free"))
    ⊎ ((1000 + 14 * day < 1001)
        × (state 14 home 1001 ≡ lapsed)
        × (effective_tier 14 home 1001 ≡ free))
state-effective_tier_example = state-effective_tier 14 1001 1000 home refl

extend_days_example :
    let h' = got home (extend 500 (some (pos 30)) none home) in
    IsFrom (500 + 30 * day) h'.paid_until
    × IsFromOld (pos 30) (some 1000) h'.paid_until
    × (h'.expiry_warned_at ≡ none)
    × (h'.lapse_notified_at ≡ none)
    × (h'.tier ≡ "free")
    × (h'.price_pence ≡ some 900)
    × (h'.entitlement_source ≡ some "comp")
unfolding extend extend_to reset_dunning
extend_days_example =
    extend_days 500 (pos 30) home (got home (extend 500 (some (pos 30)) none home)) refl
