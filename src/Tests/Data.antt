-- ===== src/Tests/Data.antt =====
-- Small values of the models.
use meals.Prelude.{
  ℕ, ◌*◌, ◌+◌, String, Bool, true, false, Option, none, some, List, [], ◌∷◌, pos, nat_beq, Result,
  ok, err,
}
use meals.Amounts.{Amount}
use meals.Models.{Db}
use meals.Models.Users.{Household, User}
use meals.Models.Catalog.{Recipe}
use meals.Models.Planning.{Meal}
use meals.Models.Shopping.{active, ListItem, ListItemSource}
use meals.Limits.Settings.{Settings}
use meals.Limits.Tiers.{hosted_profile, free, recipes}
use meals.Limits.Enforce.{Clock, LimitExceeded, refuse}
use meals.Catalog.{Naming}
use meals.Shopping.Adhoc.{AdhocItemIn, Context}

instance abbrev pub natural_amount : Amount ℕ
natural_amount = record {
  times = λ a b. a * b;
  plus = λ a b. a + b;
  zero = 0;
  one = 1;
  eq = nat_beq;
}

abbrev pub hosted : Settings
hosted = record {
  limits_profile = "hosted";
  limits_overrides = [];
  default_household_tier = "free";
  max_households = some (pos 2);
  max_users = none;
  entitlement_grace_days = 14;
  dunning_warn_days = 7;
  email_configured = true;
}

abbrev pub home : Household
home = record {
  id = 1;
  name = "Home";
  lead_user_id = some 10;
  tier = "free";
  price_pence = some 900;
  price_currency = some "GBP";
  price_set_at = some 5;
  ingest_period_started_at = some 100;
  ingests_used = 19;
  paid_until = some 1000;
  entitlement_source = some "comp";
  billing_customer_id = some "cus";
  entitlement_note = none;
  expiry_warned_at = some 3;
  lapse_notified_at = none;
}

abbrev pub ada : User
ada = record {
  id = 10;
  household_id = 1;
  email = "ada@example.org";
  password_hash = "hashed";
  display_name = "Ada";
}

abbrev pub line : ℕ → ℕ → Option String → Bool → List (ListItemSource ℕ) → ListItem ℕ
line id ingredient unit ticked sources = record {
  id = id;
  list_id = 7;
  ingredient_id = ingredient;
  unit = unit;
  checked = ticked;
  excluded = false;
  staple_needed = false;
  sources = sources;
}

abbrev pub need : Option ℕ → ℕ → ListItemSource ℕ
need plan_meal q = record {
  plan_meal_id = plan_meal;
  recipe_id = none;
  quantity = some q;
  client_key = none;
}

abbrev pub curry : Recipe ℕ
curry = record {
  id = 30;
  household_id = 1;
  title = "Curry";
  source_url = none;
  servings = some 4;
  prep_minutes = none;
  cook_minutes = none;
  image_url = none;
  instructions = none;
  tags = [];
  parse_source = "manual";
  edited = false;
  times_cooked = 0;
  last_cooked_at = none;
  created_by = none;
  updated_at = 0;
  ingredient_links =
      record { ingredient_id = 50; quantity = some 2; unit = some "tin"; raw_text = none } ∷ [];
}

abbrev pub curry_night : Meal ℕ
curry_night = record {
  id = 40;
  household_id = 1;
  name = "Curry night";
  slot = none;
  times_cooked = 0;
  last_cooked_at = none;
  recipe_links = record { recipe_id = 30; scale = 3 } ∷ [];
  ingredient_links = record { ingredient_id = 51; quantity = none; unit = none } ∷ [];
}

abbrev pub store : Db ℕ
store = record {
  households = home ∷ [];
  users = ada ∷ [];
  auth_tokens = [];
  ingredients = [];
  recipes = curry ∷ [];
  meal_rows = curry_night ∷ [];
  plans = [];
  plan_meals = [];
  cooked_events = [];
  supermarkets = [];
  shopping_lists = record { id = 7; household_id = 1; status = active; archived_at = none } ∷ [];
  list_items = line 60 50 (some "tin") true (need none 1 ∷ []) ∷ [];
  freezer_items = [];
  household_invites = [];
  billing_events = [];
  drawn = 0;
}

abbrev pub ids : ℕ → ℕ
ids n = n + 100

abbrev pub clock : Clock
clock = record { now = 500; month_start = 100 }

-- Names as they are written: a stand-in for the folds of a name.
abbrev pub as_written : Naming
as_written = record {
  canonical_ingredient_name = λ name. name;
  guess_aisle = λ name. "other";
  join_split = λ name. name;
  lower = λ name. name;
}

abbrev pub deployed : Context
deployed = record { settings = hosted; table = hosted_profile; clock = clock; naming = as_written }

abbrev pub candles : AdhocItemIn ℕ
candles = record { id = some 900; name = "candles"; quantity = some 4; unit = none }

-- What a run that succeeds returns.
abbrev pub got : {A E : Type 0} → A → Result E A → A
got a (ok b) = b
got a (err _) = a

-- The refusal, where there is one.
abbrev pub refused : Option LimitExceeded → LimitExceeded
refused (some e) = e
refused none = refuse recipes free (pos 0) 0 false
