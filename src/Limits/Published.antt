-- ===== src/Limits/Published.antt =====
-- What GET /limits publishes is what a write meets.
use meals.Prelude.{
  ℕ, ◌+◌, ◌≡◌, refl, ◌↔◌, ◌⊎◌, inl, inr, true, false, Option, none, some, arith, nat_eq, ◌==◌, ok,
  find, Bool-cases,
}
use meals.Models.{Db}
use meals.Models.Users.{Household}
use meals.Limits.Tiers.{Resource, getattr, LimitSet, Table}
use meals.Limits.Settings.{Settings, anything_configured, ceilings}
use meals.Limits.Counting.{count}
use meals.Limits.Enforce.{
  Clock, LimitExceeded, passed, verdict, effective, enforce, has_limit, effective_tier, or_else,
  raise_refusal,
}

module _ (table : Table) (tier : LimitSet) (r : Resource) (used adding : ℕ) where
  -- No refusal exactly where the published number is not passed.
  pub verdict-eq-none_iff :
      (verdict table tier r used adding ≡ none)
      ↔ (passed (effective table tier r).0 (used + adding) ≡ false)
  unfolding verdict effective
  verdict-eq-none_iff = ground arith

  -- A refusal answers 402 exactly where a larger tier would lift the number and the write stays
  -- within the ceiling; any other refusal answers 403. It reports the use that it was given, and a
  -- limit that is passed.
  pub verdict_status :
      (e : LimitExceeded)
      → verdict table tier r used adding ≡ some e
      → (e.status_code ≡ 402
          ↔ ((effective table tier r).1 ≡ true)
            × (passed (getattr (ceilings table) r) (used + adding) ≡ false))
        × ((e.status_code ≡ 402) ⊎ (e.status_code ≡ 403))
        × (e.used ≡ used)
        × (passed (some e.limit) (used + adding) ≡ true)
  unfolding verdict effective
  verdict_status e h = ground arith

passed_none :
    (table : Table) (tier : LimitSet) (r : Resource) (after : ℕ)
    → has_limit table tier r ≡ false
    → passed (effective table tier r).0 after ≡ false
unfolding has_limit effective
passed_none table tier r after h = ground arith

raise_refusal_iff : (o : Option LimitExceeded) → (raise_refusal o ≡ ok tt) ↔ (o ≡ none)
unfolding raise_refusal
raise_refusal_iff none = (λ _. refl, λ _. refl)
raise_refusal_iff (some e) = ((λ h. cc), (λ h. cc))

module _ {Q : Type 0} where
  -- On a configured server, a write by a household that exists and whose use is known passes
  -- `enforce` exactly when the number that GET /limits publishes for the household's effective
  -- tier is not passed by what is used and added together.
  pub enforce-ok_iff :
      (s : Settings) (table : Table) (clock : Clock) (db : Db Q) (hh : ℕ) (r : Resource)
      (adding : ℕ) (given within : Option ℕ) (h : Household) (used : ℕ)
      → anything_configured s ≡ true
      → find (λ x. x.id == hh) db.households ≡ some h
      → or_else given (count clock.month_start r db hh within) ≡ some used
      → let tier = effective_tier s.entitlement_grace_days h clock.now in
        (enforce s table clock db hh r adding given within ≡ ok tt)
        ↔ (passed (effective table tier r).0 (used + adding) ≡ false)
  unfolding enforce
  enforce-ok_iff s table clock db hh r adding given within h used on found counted =
      let tier = effective_tier s.entitlement_grace_days h clock.now in
      let v = verdict-eq-none_iff table tier r used adding in
      rw (enforce, on, found, counted)
        (elim (Bool-cases (has_limit table tier r)) [
          | inl e ↦
              rw e (λ p. v.0 ((raise_refusal_iff _).0 p), λ q. (raise_refusal_iff _).1 (v.1 q))
          | inr e ↦ rw e (λ _. passed_none table tier r (used + adding) e, λ _. refl)
        ])
