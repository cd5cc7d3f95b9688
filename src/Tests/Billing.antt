-- ===== src/Tests/Billing.antt =====
-- Runs of the billing of households.
use meals.Prelude.{
  String, true, pos, concat, ◌≤◌, ◌&&◌, ◌==◌, string_eq, any, if◌then◌else◌, ℕ, ◌≡◌, refl, none,
  some, List, [], ◌∷◌, map, arith, find, ok, err,
}
use meals.Models.{Db}
use meals.Models.Billing.{Outcome, granted, orphan, duplicate}
use meals.Billing.{
  Incoming, Offer, grants, revokes, ignores, foreign_key, settle_household, finish,
  already_recorded,
}
use meals.Billing.Deliveries.{credit_once, deliver_all, row_key, deliver_all-credit_once}
use meals.Billing.Overlap.{but_prices_set_at, finish_again}
use meals.Billing.Signature.{Webhooks, stripe_parts, age}
use meals.Billing.Payload.{Json, text, integer, dict, member, no_members, Python}
use meals.Billing.Webhook.{handle_webhook, handle_webhook-authentic}
use meals.Tests.Data.{store, home, got}

abbrev offer : Offer
offer = record { billing_price_pence = some 1200; billing_price_currency = "GBP" }

abbrev paid : Incoming
paid = record {
  processor = "stripe";
  event_id = "evt_1";
  event_type = "invoice.paid";
  action = grants;
  household_id = some 1;
  renews_at = some 9000;
  price_pence = none;
  price_currency = none;
  customer_id = some "cus_2";
}

abbrev ended : Incoming
ended = record paid { event_id = "evt_2"; action = revokes }

-- The payment comes three times, once behind the end of the subscription.
abbrev deliveries : List (ℕ × Incoming)
deliveries = (100, paid) ∷ (200, paid) ∷ (300, ended) ∷ (400, paid) ∷ []

deliver_all-credit_once_example :
    let end = deliver_all offer deliveries store in
    (end.households, map row_key end.billing_events)
    ≡ credit_once offer (map row_key store.billing_events) deliveries store.households
deliver_all-credit_once_example = deliver_all-credit_once offer deliveries store

-- An event that asks for nothing, and names no household of the server.
run_stray :
    finish 100 offer (record paid { action = ignores; household_id = some 9 }) store
    ≡ err foreign_key
unfolding finish
run_stray = refl

abbrev first : Db ℕ
first = (got (orphan, store) (finish 100 offer paid store)).1

finish_again_example :
    (finish 200 offer paid first ≡ ok (duplicate, first))
    × ((second : Db ℕ) × (settle_household 200 offer paid home first ≡ ok (duplicate, second))
        × (but_prices_set_at second ≡ but_prices_set_at first))
unfolding already_recorded finish find meals.Entitlements.grant meals.Limits.Tiers.tier_of_name
    meals.Limits.Tiers.limit_set_of_name
finish_again_example =
    finish_again 100 200 offer paid store granted first refl refl 1 home refl refl (omega arith)

abbrev webhooks : Webhooks
webhooks = record {
  billing_processor = "stripe";
  billing_webhook_secret = some "key";
  billing_signature_tolerance_seconds = 300;
  hmac_sha256 = λ secret message. concat secret message;
  read_timestamp = λ t. some 1_000_000;
  strip = λ t. t;
  lower = λ t. t;
}

abbrev shown : Json → String
shown (text s) = s
shown _ = "12"

abbrev python : Python
python = record {
  str = shown;
  int = λ t. some (pos 12);
  uuid = λ t. if t == "home" then some 1 else none;
  fromisoformat = λ t. none;
  fromtimestamp = λ t. some 9_000_000;
  sha256 = λ t. t;
  upper = λ t. t;
  strip = λ t. t;
  len = λ t. 3;
  first_255 = λ t. t;
}

abbrev renewal : Json
renewal = dict (
    member "type" (text "customer.subscription.updated") (
      member "id" (text "evt_9") (
        member "data"
          (dict (
            member "object"
              (dict (
                member "metadata" (dict (member "household_id" (text "home") no_members))
                  (member "current_period_end" (integer (pos 9)) no_members)))
              no_members))
          no_members)))

abbrev signed : List (String × String)
signed = ("stripe-signature", "t=5,v0=fake,v1=key5.body") ∷ []

abbrev received : Outcome × Db ℕ
received =
    got (orphan, store) (handle_webhook webhooks python 2_000_000 offer "body" signed renewal store)

run_webhook : received.0 ≡ granted
unfolding handle_webhook meals.Entitlements.grant meals.Limits.Tiers.tier_of_name
    meals.Limits.Tiers.limit_set_of_name
run_webhook = refl

handle_webhook-authentic_example :
    (any (λ q. q.0 == "v1" && "key5.body" == q.1) (stripe_parts webhooks "t=5,v0=fake,v1=key5.body")
      ≡ true)
    × ((signed_at : ℕ) × (webhooks.read_timestamp "5" ≡ some signed_at)
        × (age 2_000_000 signed_at ≤ 300_000_000))
unfolding handle_webhook meals.Entitlements.grant meals.Limits.Tiers.tier_of_name
    meals.Limits.Tiers.limit_set_of_name
handle_webhook-authentic_example =
    handle_webhook-authentic webhooks python 2_000_000 offer "body" signed renewal store received
      refl refl
