-- ===== src/Limits/Enforce.antt =====
-- backend/app/limits.py: effective tiers, verdicts, enforcement and publication.
use meals.Prelude.{
  ℕ, ◌+◌, ◌-◌, ◌*◌, String, Bool, true, false, ◌||◌, not, ltb, Option, none, some, List, [], ◌∷◌,
  map, find, ◌==◌, nat_eq, if◌then◌else◌, ℤ, pos, ltb_ℤ, pos_part, Result, ok, err,
}
use meals.Models.{Db}
use meals.Models.Users.{Household}
use meals.Limits.Tiers.{
  Resource, members, recipes, ingredients, meal_rows, meal_lines, plans, plan_meals, supermarkets,
  freezer_items, api_tokens, ingests_per_month, getattr, LimitSet, unlimited, free, paid,
  tier_of_name, Table,
}
use meals.Limits.Settings.{Settings, anything_configured, limits_for, ceilings}
use meals.Limits.Counting.{count, household_wide}

-- A day in microseconds.
abbrev pub day : ℕ
day = 86_400_000_000

-- `grace_days` is the setting ENTITLEMENT_GRACE_DAYS.
unfoldable pub has_lapsed : ℕ → Household → ℕ → Bool
has_lapsed grace_days h now = elim h.paid_until [
  | none ↦ false
  | some until ↦ ltb (until + grace_days * day) now
]

-- A stored tier that this build does not know reads as unlimited.
unfoldable pub known_tier : String → LimitSet
unfolding tier_of_name
known_tier name = elim (tier_of_name name) [ none ↦ unlimited | some t ↦ t ]

unfoldable pub effective_tier : ℕ → Household → ℕ → LimitSet
unfolding has_lapsed
effective_tier grace_days h now = if has_lapsed grace_days h now then free else known_tier h.tier

-- `UPGRADE_PATH.get(tier, ())`
unfoldable pub upgrade_path : LimitSet → List LimitSet
upgrade_path free = paid ∷ []
upgrade_path _ = []

unfoldable pub lifts : Table → Resource → ℤ → List LimitSet → Bool
unfolding limits_for getattr
lifts table r cap [] = false
lifts table r cap (better ∷ rest) =
    let later = lifts table r cap rest in
    elim (getattr (limits_for table better) r) [
      | none ↦ true
      | some allowance ↦ if ltb_ℤ cap allowance then true else later
    ]

unfoldable pub upgradable : Table → LimitSet → Resource → ℤ → Bool
unfolding lifts upgrade_path
upgradable table tier r cap = lifts table r cap (upgrade_path tier)

-- `LimitExceeded`, without its sentence.
pub record LimitExceeded : Type 0 where
  pub status_code : ℕ
  pub resource : Resource
  pub tier : LimitSet
  pub limit : ℤ
  pub used : ℕ

unfoldable pub refuse : Resource → LimitSet → ℤ → ℕ → Bool → LimitExceeded
refuse r tier limit used can_upgrade = record {
  status_code = if can_upgrade then 402 else 403;
  resource = r;
  tier = tier;
  limit = limit;
  used = used;
}

-- Whether a number that may be unlimited is passed.
abbrev pub passed : Option ℤ → ℕ → Bool
passed none after = false
passed (some limit) after = ltb_ℤ limit (pos after)

unfoldable pub verdict : Table → LimitSet → Resource → ℕ → ℕ → Option LimitExceeded
unfolding limits_for ceilings getattr refuse
verdict table tier r used adding =
    let after = used + adding in
    let by_cap : Option LimitExceeded = elim (getattr (limits_for table tier) r) [
      | none ↦ none
      | some cap ↦
          if ltb_ℤ cap (pos after)
          then some (refuse r tier cap used (upgradable table tier r cap))
          else none
    ] in
    elim (getattr (ceilings table) r) [
      | none ↦ by_cap
      | some top ↦ if ltb_ℤ top (pos after) then some (refuse r tier top used false) else by_cap
    ]

is_limited : Option ℤ → Bool
is_limited none = false
is_limited (some _) = true

unfoldable pub has_limit : Table → LimitSet → Resource → Bool
unfolding limits_for ceilings getattr is_limited
has_limit table tier r =
    is_limited (getattr (limits_for table tier) r) || is_limited (getattr (ceilings table) r)

pub data EnforceError : Type 0 where
  exceeded : LimitExceeded → EnforceError
  assertion : EnforceError

-- `if refusal is not None: raise refusal`
unfoldable pub raise_refusal : Option LimitExceeded → Result EnforceError (Unit {0})
raise_refusal none = ok tt
raise_refusal (some e) = err (exceeded e)

-- The part of `enforce` behind its early returns, with the tier and the count at hand.
unfoldable pub enforce_count :
    Table → LimitSet → Resource → ℕ → Option ℕ → Result EnforceError (Unit {0})
unfolding raise_refusal
enforce_count table tier r adding none = err assertion
enforce_count table tier r adding (some used) = raise_refusal (verdict table tier r used adding)

-- `used or count`: the caller's number, or the resource's own count.
abbrev pub or_else {ℓ} : {A : Type ℓ} → Option A → Option A → Option A
or_else (some a) _ = some a
or_else none b = b

-- The clock: this instant, and the first instant of its calendar month.
pub record Clock : Type 0 where
  pub now : ℕ
  pub month_start : ℕ

module _ {Q : Type 0} where
  unfoldable pub enforce :
      Settings
      → Table
      → Clock
      → Db Q
      → ℕ
      → Resource
      → ℕ
      → Option ℕ
      → Option ℕ
      → Result EnforceError (Unit {0})
  unfolding enforce_count has_limit find
  enforce s table clock db household_id r adding used within =
      if not (anything_configured s)
      then ok tt
      else elim (find (λ h. h.id == household_id) db.households) [
        | none ↦ ok tt
        | some h ↦
            let tier = effective_tier s.entitlement_grace_days h clock.now in
            if not (has_limit table tier r)
            then ok tt
            else enforce_count table tier r adding
                (or_else used (count clock.month_start r db household_id within))
      ]

unfoldable pub effective : Table → LimitSet → Resource → Option ℤ × Bool
unfolding limits_for ceilings getattr
effective table tier r = elim (getattr (ceilings table) r) [
  | none ↦ elim (getattr (limits_for table tier) r) [
    | none ↦ (none, false)
    | some cap ↦ (some cap, upgradable table tier r cap)
  ]
  | some top ↦ elim (getattr (limits_for table tier) r) [
    | none ↦ (some top, false)
    | some cap ↦
        if ltb_ℤ cap top then (some cap, upgradable table tier r cap) else (some top, false)
  ]
]

pub record ResourceAllowance : Type 0 where
  pub resource : Resource
  pub limit : Option ℤ
  pub used : Option ℕ
  pub remaining : Option ℕ
  pub upgradable : Bool

-- `max(0, limit - used)`: the subtraction of naturals stops at 0, and a negative limit leaves 0.
abbrev pub remaining_of : Option ℤ → Option ℕ → Option ℕ
remaining_of (some limit) (some used) = some (pos_part limit - used)
remaining_of _ _ = none

-- The keys of `RESOURCES`, in order.
abbrev pub all_resources : List Resource
all_resources =
    members ∷ recipes ∷ ingredients ∷ meal_rows ∷ meal_lines ∷ plans ∷ plan_meals ∷ supermarkets
    ∷ freezer_items ∷ api_tokens ∷ ingests_per_month ∷ []

module _ {Q : Type 0} where
  unfoldable pub allowance_of : Table → LimitSet → ℕ → Db Q → ℕ → Resource → ResourceAllowance
  unfolding effective household_wide
  allowance_of table tier month db household_id r =
      let (limit, lifted) = effective table tier r in
      let used : Option ℕ = elim limit [
        | none ↦ none
        | some _ ↦ if household_wide r then count month r db household_id none else none
      ] in
      record {
        resource = r;
        limit = limit;
        used = used;
        remaining = remaining_of limit used;
        upgradable = lifted;
      }

  unfoldable pub snapshot : Settings → Table → Clock → Db Q → Household → List ResourceAllowance
  unfolding allowance_of
  snapshot s table clock db h =
      let tier = effective_tier s.entitlement_grace_days h clock.now in
      map (allowance_of table tier clock.month_start db h.id) all_resources
