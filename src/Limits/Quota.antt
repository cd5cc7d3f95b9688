-- ===== src/Limits/Quota.antt =====
-- The month's quota of URL ingests cannot be evaded by retrying.
use meals.Prelude.{
  ℕ, ◌+◌, ◌≤◌, ◌≡◌, refl, ◌⊎◌, inl, inr, true, none, some, List, [], ◌∷◌, arith, find, update_where,
  find-update_where, find-holds, ◌==◌, nat_eq, nat_beq_iff, pos, ok, err, Result-cases,
  Option-cases, subst, sym,
}
use meals.Models.{Db}
use meals.Models.Users.{Household}
use meals.Limits.Tiers.{LimitSet, Table, getattr, ingests_per_month}
use meals.Limits.Settings.{Settings, anything_configured, ceilings}
use meals.Limits.Counting.{count_ingests, ingests_this_month}
use meals.Limits.Enforce.{Clock, effective_tier, has_limit, verdict}
use meals.Limits.Ingest.{charge, reserve_ingest}

abbrev pub clock_at : ℕ → ℕ → Clock
clock_at now month = record { now = now; month_start = month }

module _ {Q : Type 0} (s : Settings) (table : Table) (month hh : ℕ) where
  -- The attempts of one month: the row is read, charged or refused, each at its own instant. What
  -- comes back is the number that was granted.
  pub attempts : Db Q → List ℕ → ℕ × Db Q
  attempts db [] = (0, db)
  attempts db (now ∷ later) = elim (find (λ h. h.id == hh) db.households) [
    | none ↦ attempts db later
    | some h ↦ elim (reserve_ingest s table (clock_at now month) db h) [
      | err _ ↦ attempts db later
      | ok db' ↦ let (granted, end) = attempts db' later in (granted + 1, end)
    ]
  ]

module _ (table : Table) (n : ℕ)
    (top : getattr (ceilings table) ingests_per_month ≡ some (pos n)) where
  limited : (tier : LimitSet) → has_limit table tier ingests_per_month ≡ true
  unfolding has_limit
  limited tier = ground (arith, top)

  within_ceiling :
      (tier : LimitSet) (used : ℕ)
      → verdict table tier ingests_per_month used 1 ≡ none
      → used + 1 ≤ n
  unfolding verdict
  within_ceiling tier used h = ground (arith, top)

module _ {Q : Type 0} (month : ℕ) (db : Db Q) (h : Household)
    (found : find (λ x. x.id == h.id) db.households ≡ some h) where
  counted : count_ingests month db h.id ≡ ingests_this_month month h
  unfolding count_ingests
  counted = rw (count_ingests, found)

  charged :
      (used : ℕ)
      → find
          (λ x. x.id == h.id)
          (update_where (λ x. x.id == h.id) (charge month used) db.households)
        ≡ some (charge month used h)
  unfolding charge
  charged used =
      rw
        (
          find-update_where (λ x. x.id == h.id) (λ x. x.id == h.id) (charge month used)
              db.households (λ x. refl),
          found,
        )
        (ground (arith, find-holds (λ x. x.id == h.id) db.households h))

  recount :
      (used : ℕ)
      → count_ingests month
          (record db {
            households = update_where (λ x. x.id == h.id) (charge month used) db.households;
          })
          h.id
        ≡ used + 1
  unfolding count_ingests charge
  recount used = rw (count_ingests, charged used) (ground arith)

module _ {Q : Type 0} (s : Settings) (table : Table) (month n : ℕ)
    (top : getattr (ceilings table) ingests_per_month ≡ some (pos n))
    (on : anything_configured s ≡ true) where
  -- One granted reservation adds one to the count, and the count is within the ceiling.
  reserve_step :
      (now : ℕ) (db db' : Db Q) (h : Household)
      → find (λ x. x.id == h.id) db.households ≡ some h
      → reserve_ingest s table (clock_at now month) db h ≡ ok db'
      → (count_ingests month db' h.id ≡ count_ingests month db h.id + 1)
        × (count_ingests month db' h.id ≤ n)
  unfolding reserve_ingest
  reserve_step now db db' h found r =
      let tier = effective_tier s.entitlement_grace_days h now in
      let used = count_ingests month db h.id in
      elim (Option-cases (verdict table tier ingests_per_month used 1)) [
        | inr (x, e) ↦ ground (arith, on, limited table n top tier, e)
        | inl e ↦
            let moved = recount month db h found used in
            ground (
              arith,
              on,
              limited table n top tier,
              e,
              moved,
              within_ceiling table n top tier used e,
            )
      ]

  reserve_step_at :
      (hh now : ℕ) (db db' : Db Q) (h : Household)
      → find (λ x. x.id == hh) db.households ≡ some h
      → reserve_ingest s table (clock_at now month) db h ≡ ok db'
      → (count_ingests month db' hh ≡ count_ingests month db hh + 1)
        × (count_ingests month db' hh ≤ n)
  reserve_step_at hh now db db' h found r =
      let same : h.id ≡ hh =
        (nat_beq_iff h.id hh).0 (find-holds (λ x. x.id == hh) db.households h found) in
      subst
        (λ k.
          (count_ingests month db' k ≡ count_ingests month db k + 1)
          × (count_ingests month db' k ≤ n))
        same
        (reserve_step now db db' h
          (subst (λ k. find (λ x. x.id == k) db.households ≡ some h) (sym same) found) r)

  -- On a configured server with a ceiling of `n` ingests a month, however often a household tries
  -- within one month, and at whatever instants: each granted attempt is charged once, refused ones
  -- are not charged, and unless nothing was granted the count ends within the ceiling.
  pub attempts_bounded :
      (hh : ℕ) (db : Db Q) (nows : List ℕ)
      → let (granted, end) = attempts s table month hh db nows in
        (count_ingests month end hh ≡ count_ingests month db hh + granted)
        × ((granted ≡ 0) ⊎ (count_ingests month end hh ≤ n))
  unfolding attempts
  attempts_bounded hh db [] = ground arith
  attempts_bounded hh db (now ∷ later) =
      elim (Option-cases (find (λ x. x.id == hh) db.households)) [
        | inl e ↦ rw (attempts, e) (attempts_bounded hh db later)
        | inr (h, e) ↦ elim (Result-cases (reserve_ingest s table (clock_at now month) db h)) [
          | inr (x, r) ↦ rw (attempts, e, r) (attempts_bounded hh db later)
          | inl (db', r) ↦
              ground
                (arith, e, r, reserve_step_at hh now db db' h e r, attempts_bounded hh db' later)
        ]
      ]
