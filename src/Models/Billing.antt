-- ===== src/Models/Billing.antt =====
-- backend/app/models/billing.py.
use meals.Prelude.{ℕ, String, Option}

-- What this server made of a webhook.
pub data Outcome : Type 0 where
  granted revoked ignored duplicate orphan refused : Outcome

pub record BillingEvent : Type 0 where
  pub processor : String
  pub event_id : String
  pub event_type : String
  pub outcome : Outcome
  pub household_id : Option ℕ
