-- ===== src/Entitlements/Expiry.antt =====
-- When an entitlement runs out, and how it is pushed out.
use meals.Prelude.{
  ℕ, ℤ, pos, ◌+◌, ◌*◌, ◌≤◌, ◌<◌, ◌≡◌, ◌⊎◌, Option, none, some, arith, ok, is_ok, ltb, ltb_ℤ,
  pos_part, Bool, false,
}
use meals.Models.Users.{Household}
use meals.Limits.Tiers.{free}
use meals.Limits.Enforce.{day, effective_tier, known_tier}
use meals.Entitlements.{paid, grace, lapsed, state, extend}

-- For a household whose entitlement ends, the reported state against the tier that the limits use,
-- in the four stretches of time: the stored tier stands while it is paid and through the grace, and
-- the free tier is read once the grace is over. At the very instant at which the grace ends the
-- report already says lapsed, and the stored tier still stands.
pub state-effective_tier :
    (grace_days now until : ℕ) (h : Household)
    → h.paid_until ≡ some until
    → let end = until + grace_days * day in
      let tier = effective_tier grace_days h now in
      let reported = state grace_days h now in
      ((now < until) × (reported ≡ paid) × (tier ≡ known_tier h.tier))
      ⊎ ((until ≤ now) × (now < end) × (reported ≡ grace) × (tier ≡ known_tier h.tier))
      ⊎ ((now ≡ end) × (reported ≡ lapsed) × (tier ≡ known_tier h.tier))
      ⊎ ((end < now) × (reported ≡ lapsed) × (tier ≡ free))
unfolding state effective_tier
state-effective_tier grace_days now until h e = grind arith

-- There is an expiry, and it is not before the instant.
abbrev pub IsFrom : ℕ → Option ℕ → Type 0
IsFrom n none = ⊥
IsFrom n (some until) = n ≤ until

-- The same, for the instant so many days after one that there may be.
abbrev pub IsFromOld : ℤ → Option ℕ → Option ℕ → Type 0
IsFromOld days none until = Unit
IsFromOld days (some old) until = IsFrom (old + pos_part days * day) until

-- One of the two arguments is given, and it lies ahead.
abbrev pub is_ahead : ℕ → Option ℤ → Option ℕ → Bool
is_ahead now (some days) none = ltb_ℤ (pos 0) days
is_ahead now none (some until) = ltb now until
is_ahead now _ _ = false

-- `extend` succeeds exactly when it is given a positive number of days or an instant to come, and
-- not both.
pub is_ok-extend :
    (now : ℕ) (days : Option ℤ) (until : Option ℕ) (h : Household)
    → is_ok (extend now days until h) ≡ is_ahead now days until
unfolding extend
is_ok-extend now none none h = ground arith
is_ok-extend now (some d) none h = ground arith
is_ok-extend now none (some u) h = ground arith
is_ok-extend now (some d) (some u) h = ground arith

-- After a successful extension by days the expiry lies at least so many days after now and after
-- the expiry that there was; both marks of the dunning are cleared; and the tier, the price and the
-- source stay.
pub extend_days :
    (now : ℕ) (days : ℤ) (h h' : Household)
    → extend now (some days) none h ≡ ok h'
    → IsFrom (now + pos_part days * day) h'.paid_until
      × IsFromOld days h.paid_until h'.paid_until
      × (h'.expiry_warned_at ≡ none)
      × (h'.lapse_notified_at ≡ none)
      × (h'.tier ≡ h.tier)
      × (h'.price_pence ≡ h.price_pence)
      × (h'.entitlement_source ≡ h.entitlement_source)
unfolding extend
extend_days now days h h' e = ground arith
