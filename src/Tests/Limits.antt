-- ===== src/Tests/Limits.antt =====
-- Runs of the limits.
use meals.Prelude.{◌≡◌, ◌↔◌, refl, ◌⊎◌, ◌+◌, ◌≤◌, true, false, none, some, [], ◌∷◌, pos, ok, find}
use meals.Limits.Tiers.{
  Table, hosted_profile, free, ceiling, recipes, ingests_per_month, get, getattr, put, replace,
  profile_of_name, limit_set_of_name, tier_of_name,
}
use meals.Limits.Settings.{
  current_table, check_settings, check_overrides, override, anything_configured, ceilings,
}
use meals.Limits.Counting.{count, count_ingests}
use meals.Limits.Enforce.{enforce, effective, effective_tier, passed, verdict, upgradable, lifts}
use meals.Limits.Published.{enforce-ok_iff, verdict_status}
use meals.Limits.Startup.{AllCounted, check_settings-builds}
use meals.Limits.Quota.{attempts, attempts_bounded}
use meals.Tests.Data.{hosted, home, store, clock, refused}

enforce-ok_iff_example :
    (enforce hosted hosted_profile clock store 1 recipes 1 none none ≡ ok tt)
    ↔ (passed (effective hosted_profile (effective_tier 14 home 500) recipes).0 2 ≡ false)
unfolding anything_configured find count
enforce-ok_iff_example =
    enforce-ok_iff hosted hosted_profile clock store 1 recipes 1 none none home 1 refl refl refl

verdict_status_example :
    let e = refused (verdict hosted_profile free ingests_per_month 100000 1) in
    (e.status_code ≡ 402
      ↔ ((effective hosted_profile free ingests_per_month).1 ≡ true)
        × (passed (getattr (ceilings hosted_profile) ingests_per_month) 100001 ≡ false))
    × ((e.status_code ≡ 402) ⊎ (e.status_code ≡ 403))
    × (e.used ≡ 100000)
    × (passed (some e.limit) 100001 ≡ true)
unfolding verdict upgradable lifts
verdict_status_example =
    verdict_status hosted_profile free ingests_per_month 100000 1
      (refused (verdict hosted_profile free ingests_per_month 100000 1)) refl

attempts_bounded_example :
    let table =
      put hosted_profile ceiling
        (replace (get hosted_profile ceiling) ingests_per_month (some (pos 25))) in
    let (granted, end) = attempts hosted table 100 1 store (500 ∷ 501 ∷ []) in
    (count_ingests 100 end 1 ≡ count_ingests 100 store 1 + granted)
    × ((granted ≡ 0) ⊎ (count_ingests 100 end 1 ≤ 25))
unfolding ceilings put get replace getattr anything_configured
attempts_bounded_example =
    attempts_bounded hosted
      (put hosted_profile ceiling
        (replace (get hosted_profile ceiling) ingests_per_month (some (pos 25))))
      100 25 refl refl 1 store (500 ∷ 501 ∷ [])

check_settings-builds_example : (t : Table) × (current_table hosted ≡ ok t) × AllCounted t
unfolding check_settings check_overrides profile_of_name tier_of_name limit_set_of_name
    current_table override
check_settings-builds_example = check_settings-builds hosted refl
