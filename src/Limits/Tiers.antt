-- ===== src/Limits/Tiers.antt =====
-- backend/app/limits.py: the limited resources, one set of numbers, and the profiles.
use meals.Prelude.{String, Option, none, some, ◌==◌, string_eq, if◌then◌else◌, ℤ, pos}

-- The fields of `Limits`, as the names that `getattr` is given; `meal_rows` is the resource `meals`.
pub data Resource : Type 0 where
  members recipes ingredients meal_rows meal_lines plans plan_meals supermarkets : Resource
  freezer_items api_tokens ingests_per_month : Resource

-- One set of numbers; `none` means unlimited. Python's integers may be negative until
-- `check_settings` has refused them.
pub record Limits : Type 0 where
  pub members : Option ℤ
  pub recipes : Option ℤ
  pub ingredients : Option ℤ
  pub meal_rows : Option ℤ
  pub meal_lines : Option ℤ
  pub plans : Option ℤ
  pub plan_meals : Option ℤ
  pub supermarkets : Option ℤ
  pub freezer_items : Option ℤ
  pub api_tokens : Option ℤ
  pub ingests_per_month : Option ℤ

-- `getattr(limits, resource)`
unfoldable pub getattr : Limits → Resource → Option ℤ
getattr l members = l.members
getattr l recipes = l.recipes
getattr l ingredients = l.ingredients
getattr l meal_rows = l.meal_rows
getattr l meal_lines = l.meal_lines
getattr l plans = l.plans
getattr l plan_meals = l.plan_meals
getattr l supermarkets = l.supermarkets
getattr l freezer_items = l.freezer_items
getattr l api_tokens = l.api_tokens
getattr l ingests_per_month = l.ingests_per_month

-- `replace(limits, resource=value)`
unfoldable pub replace : Limits → Resource → Option ℤ → Limits
replace l members v = record l { members = v }
replace l recipes v = record l { recipes = v }
replace l ingredients v = record l { ingredients = v }
replace l meal_rows v = record l { meal_rows = v }
replace l meal_lines v = record l { meal_lines = v }
replace l plans v = record l { plans = v }
replace l plan_meals v = record l { plan_meals = v }
replace l supermarkets v = record l { supermarkets = v }
replace l freezer_items v = record l { freezer_items = v }
replace l api_tokens v = record l { api_tokens = v }
replace l ingests_per_month v = record l { ingests_per_month = v }

-- `RESOURCE_NAMES`, each with the field it names.
unfoldable pub resource_of_name : String → Option Resource
resource_of_name s =
    if s == "members"
    then some members
    else if s == "recipes"
    then some recipes
    else if s == "ingredients"
    then some ingredients
    else if s == "meals"
    then some meal_rows
    else if s == "meal_lines"
    then some meal_lines
    else if s == "plans"
    then some plans
    else if s == "plan_meals"
    then some plan_meals
    else if s == "supermarkets"
    then some supermarkets
    else if s == "freezer_items"
    then some freezer_items
    else if s == "api_tokens"
    then some api_tokens
    else if s == "ingests_per_month"
    then some ingests_per_month
    else none

abbrev pub unlimited_limits : Limits
unlimited_limits = record {
  members = none;
  recipes = none;
  ingredients = none;
  meal_rows = none;
  meal_lines = none;
  plans = none;
  plan_meals = none;
  supermarkets = none;
  freezer_items = none;
  api_tokens = none;
  ingests_per_month = none;
}

-- The keys of a profile: the three tiers, and the ceiling, which is not a tier.
pub data LimitSet : Type 0 where
  unlimited free paid ceiling : LimitSet

unfoldable pub limit_set_of_name : String → Option LimitSet
limit_set_of_name s =
    if s == "unlimited"
    then some unlimited
    else if s == "free"
    then some free
    else if s == "paid"
    then some paid
    else if s == "ceiling"
    then some ceiling
    else none

-- `name in TIERS`
unfoldable pub tier_of_name : String → Option LimitSet
tier_of_name s = elim (limit_set_of_name s) [
  | none ↦ none
  | some t ↦ elim t [ ceiling ↦ none | other ↦ some other ]
]

-- A profile is a dict with exactly the four keys.
pub record Table : Type 0 where
  pub unlimited : Limits
  pub free : Limits
  pub paid : Limits
  pub ceiling : Limits

-- `table[name]`
unfoldable pub get : Table → LimitSet → Limits
get t unlimited = t.unlimited
get t free = t.free
get t paid = t.paid
get t ceiling = t.ceiling

-- `table[name] = limits`
unfoldable pub put : Table → LimitSet → Limits → Table
put t unlimited l = record t { unlimited = l }
put t free l = record t { free = l }
put t paid l = record t { paid = l }
put t ceiling l = record t { ceiling = l }

abbrev pub unlimited_profile : Table
unlimited_profile = record {
  unlimited = unlimited_limits;
  free = unlimited_limits;
  paid = unlimited_limits;
  ceiling = unlimited_limits;
}

abbrev pub hosted_profile : Table
hosted_profile = record {
  unlimited = unlimited_limits;
  free = record {
    members = some (pos 1);
    recipes = some (pos 50);
    ingredients = some (pos 500);
    meal_rows = some (pos 100);
    meal_lines = some (pos 50);
    plans = some (pos 20);
    plan_meals = some (pos 30);
    supermarkets = some (pos 2);
    freezer_items = some (pos 100);
    api_tokens = some (pos 3);
    ingests_per_month = some (pos 20);
  };
  paid = record {
    members = some (pos 8);
    recipes = some (pos 2000);
    ingredients = some (pos 5000);
    meal_rows = some (pos 2000);
    meal_lines = some (pos 50);
    plans = some (pos 1000);
    plan_meals = some (pos 30);
    supermarkets = some (pos 20);
    freezer_items = some (pos 1000);
    api_tokens = some (pos 10);
    ingests_per_month = some (pos 500);
  };
  ceiling = record {
    members = some (pos 12);
    recipes = some (pos 5000);
    ingredients = some (pos 10000);
    meal_rows = some (pos 5000);
    meal_lines = some (pos 50);
    plans = some (pos 2000);
    plan_meals = some (pos 30);
    supermarkets = some (pos 20);
    freezer_items = some (pos 2000);
    api_tokens = some (pos 10);
    ingests_per_month = some (pos 1000);
  };
}

-- `PROFILES[profile]`; `none` is the KeyError.
unfoldable pub profile_of_name : String → Option Table
profile_of_name s =
    if s == "unlimited"
    then some unlimited_profile
    else if s == "hosted"
    then some hosted_profile
    else none
