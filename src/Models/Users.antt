-- ===== src/Models/Users.antt =====
-- backend/app/models/users.py. Instants are microseconds; a uuid is a number.
use meals.Prelude.{ℕ, String, Option}

pub record Household : Type 0 where
  pub id : ℕ
  pub name : String
  pub lead_user_id : Option ℕ
  pub tier : String
  pub price_pence : Option ℕ
  pub price_currency : Option String
  pub price_set_at : Option ℕ
  pub ingest_period_started_at : Option ℕ
  pub ingests_used : ℕ
  pub paid_until : Option ℕ
  pub entitlement_source : Option String
  pub billing_customer_id : Option String
  pub entitlement_note : Option String
  pub expiry_warned_at : Option ℕ
  pub lapse_notified_at : Option ℕ

pub record User : Type 0 where
  pub id : ℕ
  pub household_id : ℕ
  pub email : String
  pub password_hash : String
  pub display_name : String

pub record AuthToken : Type 0 where
  pub id : ℕ
  pub user_id : ℕ
  pub token_hash : String
  pub kind : String
  pub label : Option String
  pub expires_at : Option ℕ
  pub last_used_at : Option ℕ

pub record HouseholdInvite : Type 0 where
  pub id : ℕ
  pub household_id : ℕ
  pub created_by_user_id : Option ℕ
  pub code_hash : String
  pub expires_at : ℕ
  pub accepted_at : Option ℕ
  pub accepted_by_user_id : Option ℕ
