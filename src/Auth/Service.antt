-- ===== src/Auth/Service.antt =====
-- backend/app/schemas/auth.py and what the requests of backend/app/routers/auth.py read and change.
use meals.Prelude.{ℕ, String, Bool, Option, List}
use meals.Models.{Db}
use meals.Models.Users.{User, AuthToken, HouseholdInvite}
use meals.Limits.Tiers.{Table}
use meals.Limits.Settings.{Settings}
use meals.Limits.Enforce.{Clock, EnforceError}
use meals.Limits.Instance.{InstanceFull}
use meals.Accounts.{MoveError}
use meals.Auth.Security.{Secrets}

-- The settings, the clocks and the sources of randomness. `uuid4` numbers its draws as `Secrets`
-- does; `lower` and `strip` are Python's.
pub record Env : Type 0 where
  pub settings : Settings
  pub table : Table
  pub clock : Clock
  pub monotonic : ℕ
  pub registration_enabled : Bool
  pub session_token_ttl_days : ℕ
  pub password_reset_ttl_minutes : ℕ
  pub auth_rate_limit_per_minute : ℕ
  pub uuid4 : ℕ → ℕ
  pub secrets : Secrets
  pub lower : String → String
  pub strip : String → String

-- The mail of a reset code, as it is handed to the relay.
pub record ResetMail : Type 0 where
  pub to : String
  pub display_name : String
  pub code : String

-- The database, the caller's window of attempts, and the mails that were handed to the relay.
pub record Service (Q : Type 0) : Type 0 where
  pub db : Db Q
  pub window : List ℕ
  pub outbox : List ResetMail

pub record RegisterIn : Type 0 where
  pub email : String
  pub password : String
  pub display_name : String
  pub invite_code : Option String
  pub household_name : Option String

pub record HouseholdMemberOut : Type 0 where
  pub id : ℕ
  pub display_name : String
  pub email : String
  pub is_lead : Bool
  pub invited_by_user_id : Option ℕ

pub record HouseholdOut : Type 0 where
  pub id : ℕ
  pub name : String
  pub lead_user_id : Option ℕ
  pub members : List HouseholdMemberOut

-- What a request answers, the sentences left out.
pub data Answer : Type 0 where
  signed_in : String → User → Answer
  user_out : User → Answer
  accepted : Answer
  account_deleted : Bool → Answer
  household_out : HouseholdOut → Answer
  member_removed : ℕ → Bool → Answer
  invite_created : HouseholdInvite → String → Answer
  invite_list : List HouseholdInvite → Answer
  token_created : AuthToken → String → Answer
  token_list : List AuthToken → Answer
  no_content : Answer

-- What a request is refused with; `only_the_lead` names the lead to ask.
pub data AuthError : Type 0 where
  missing_token invalid_token token_expired too_many_attempts : AuthError
  bad_invite registration_closed email_taken : AuthError
  instance_full : InstanceFull → AuthError
  limit_reached : EnforceError → AuthError
  bad_login wrong_password same_password : AuthError
  email_not_configured bad_reset_code : AuthError
  household_gone lead_outside no_such_member : AuthError
  only_the_lead : Option String → AuthError
  hand_over_first only_member same_household needs_force : AuthError
  no_such_invite already_redeemed no_such_token : AuthError
  not_moved : MoveError → AuthError
