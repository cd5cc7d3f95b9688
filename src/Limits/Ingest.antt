-- ===== src/Limits/Ingest.antt =====
-- backend/app/limits.py, "ingest quota": a counter for the calendar month.
use meals.Prelude.{
  ℕ, ◌+◌, not, none, some, ◌==◌, nat_eq, if◌then◌else◌, Result, ok, err, update_where,
}
use meals.Models.{Db}
use meals.Models.Users.{Household}
use meals.Limits.Tiers.{Table, ingests_per_month}
use meals.Limits.Settings.{Settings, anything_configured}
use meals.Limits.Counting.{count_ingests}
use meals.Limits.Enforce.{Clock, LimitExceeded, effective_tier, has_limit, verdict}

-- `household.ingest_period_started_at = month; household.ingests_used = used + 1`
unfoldable pub charge : ℕ → ℕ → Household → Household
charge month used h = record h { ingest_period_started_at = some month; ingests_used = used + 1 }

module _ {Q : Type 0} where
  unfoldable pub reserve_ingest :
      Settings → Table → Clock → Db Q → Household → Result LimitExceeded (Db Q)
  unfolding charge update_where
  reserve_ingest s table clock db h =
      if not (anything_configured s)
      then ok db
      else let tier = effective_tier s.entitlement_grace_days h clock.now in
        if not (has_limit table tier ingests_per_month)
        then ok db
        else let used = count_ingests clock.month_start db h.id in
          elim (verdict table tier ingests_per_month used 1) [
            | some refusal ↦ err refusal
            | none ↦ ok (record db {
              households =
                  update_where (λ x. x.id == h.id) (charge clock.month_start used) db.households;
            })
          ]
