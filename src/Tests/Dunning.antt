-- ===== src/Tests/Dunning.antt =====
-- Runs of the notices.
use meals.Prelude.{
  ℕ, ◌≡◌, refl, true, false, not, none, some, [], ◌∷◌, all, any, Option, ◌==◌, nat_eq,
  if◌then◌else◌,
}
use meals.Models.{Db}
use meals.Dunning.{Notice, due, run}
use meals.Dunning.Once.{distinct_households, same_notice, due-run}
use meals.Tests.Data.{store, hosted, home, ada}

-- Two households: the relay fails for the second.
abbrev ending : Db ℕ
ending = record store {
  households = home ∷ record home { id = 2; lead_user_id = some 11; paid_until = some 400 } ∷ [];
  users = ada ∷ record ada { id = 11; household_id = 2 } ∷ [];
}

abbrev relay : Notice → Option ℕ
relay n = if n.household_id == 1 then some 1200 else none

due-run_example :
    all
      (λ m. not (any (same_notice m) (due hosted 2000 (run hosted relay 1100 false ending).1)))
      (run hosted relay 1100 false ending).0
    ≡ true
unfolding distinct_households
due-run_example = due-run hosted relay 1100 2000 ending refl
