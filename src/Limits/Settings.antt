-- ===== src/Limits/Settings.antt =====
-- backend/app/limits.py: the deployment's table of numbers, and its check at startup.
use meals.Prelude.{
  ℕ, String, Bool, true, false, ◌||◌, not, Option, none, some, List, [], ◌∷◌, ◌==◌, string_eq, ℤ,
  negsuc, Result, ok, err, ◌>>=◌, ◌>>◌, raise_if,
}
use meals.Limits.Tiers.{
  Limits, replace, resource_of_name, LimitSet, ceiling, limit_set_of_name, tier_of_name, Table, get,
  put, profile_of_name,
}

-- One section of LIMITS_OVERRIDES: the resources that it sets.
abbrev pub Changes : Type 0
Changes = List (String × Option ℤ)

-- The settings of backend/app/config.py that limits and entitlements read. The two counts of days
-- are an `int` without a lower bound there, and are taken as not negative here.
pub record Settings : Type 0 where
  pub limits_profile : String
  pub limits_overrides : List (String × Changes)
  pub default_household_tier : String
  pub max_households : Option ℤ
  pub max_users : Option ℤ
  pub entitlement_grace_days : ℕ
  pub dunning_warn_days : ℕ
  pub email_configured : Bool

pub data SettingsError : Type 0 where
  bad_profile bad_tier bad_section bad_resource negative_limit negative_ceiling : SettingsError
  -- `dataclasses.replace` with a keyword that is no field
  type_error : SettingsError

abbrev pub or_raise {ℓ} : {A : Type ℓ} {E : Type ℓ} → Option A → E → Result E A
or_raise none e = err e
or_raise (some a) e = ok a

-- `replace(limits, **changes)`
unfoldable pub replace_all : Limits → Changes → Result SettingsError Limits
replace_all l [] = ok l
replace_all l ((name, value) ∷ changes) = do
  r ← or_raise (resource_of_name name) type_error
  replace_all (replace l r value) changes

-- The loop of `_table`.
unfoldable pub override : Table → List (String × Changes) → Result SettingsError Table
unfolding replace_all
override t [] = ok t
override t ((name, changes) ∷ rest) = do
  section ← or_raise (limit_set_of_name name) bad_section
  limits ← replace_all (get t section) changes
  override (put t section limits) rest

unfoldable pub current_table : Settings → Result SettingsError Table
unfolding override
current_table s = do
  table ← or_raise (profile_of_name s.limits_profile) bad_profile
  override table s.limits_overrides

-- A tier is a key of the table here: `effective_tier` has resolved any other string, as the
-- default of `dict.get` would.
unfoldable pub limits_for : Table → LimitSet → Limits
unfolding get
limits_for t tier = get t tier

unfoldable pub ceilings : Table → Limits
unfolding get
ceilings t = get t ceiling

is_empty {ℓ} : {A : Type ℓ} → List A → Bool
is_empty [] = true
is_empty (_ ∷ _) = false

unfoldable pub anything_configured : Settings → Bool
unfolding is_empty
anything_configured s = not (s.limits_profile == "unlimited") || not (is_empty s.limits_overrides)

-- `value is not None and value < 0`
abbrev pub is_negative : Option ℤ → Bool
is_negative (some (negsuc _)) = true
is_negative _ = false

unfoldable pub check_changes : Changes → Result SettingsError (Unit {0})
check_changes [] = ok tt
check_changes ((name, value) ∷ changes) = do
  resource ← or_raise (resource_of_name name) bad_resource
  raise_if (is_negative value) negative_limit
  check_changes changes

unfoldable pub check_overrides : List (String × Changes) → Result SettingsError (Unit {0})
unfolding check_changes
check_overrides [] = ok tt
check_overrides ((name, changes) ∷ rest) = do
  section ← or_raise (limit_set_of_name name) bad_section
  check_changes changes
  check_overrides rest

unfoldable pub check_settings : Settings → Result SettingsError (Unit {0})
unfolding check_overrides current_table
check_settings s = do
  profile ← or_raise (profile_of_name s.limits_profile) bad_profile
  tier ← or_raise (tier_of_name s.default_household_tier) bad_tier
  check_overrides s.limits_overrides
  raise_if (is_negative s.max_households || is_negative s.max_users) negative_ceiling
  table ← current_table s
  ok tt
