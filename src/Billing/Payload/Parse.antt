-- ===== src/Billing/Payload/Parse.antt =====
-- backend/app/services/billing.py, `parse`: a processor's payload becomes an event.
use meals.Prelude.{
  ℕ, String, true, false, ltb_ℤ, ℤ, pos, Option, none, some, List, [], ◌∷◌, ◌++◌, ◌==◌, string_eq,
  if◌then◌else◌, Result, ok, err, ◌>>=◌, ◌>>◌, raise_if,
}
use meals.Billing.{Action, grants, revokes, ignores, Incoming}
use meals.Billing.Signature.{Webhooks, header}
use meals.Billing.Payload.{
  Json, null, boolean, integer, text, array, dict, Items, no_items, item, ParseError, unreadable,
  python_error, Python, is_true, or_json, empty, is_dict, get, get_dict, first_of, text_of,
  household_id_of, timestamp_of, identifier, money,
}

-- `_PADDLE_ACTIONS`, with what is not in it as `ignore`.
unfoldable pub paddle_action : String → Action
paddle_action name =
    if name == "subscription.created"
    then grants
    else if name == "subscription.updated"
    then grants
    else if name == "subscription.activated"
    then grants
    else if name == "transaction.completed"
    then grants
    else if name == "subscription.canceled"
    then revokes
    else if name == "subscription.cancelled"
    then revokes
    else ignores

-- `_LEMONSQUEEZY_ACTIONS`
unfoldable pub lemonsqueezy_action : String → Action
lemonsqueezy_action name =
    if name == "subscription_created"
    then grants
    else if name == "subscription_updated"
    then grants
    else if name == "subscription_payment_success"
    then grants
    else if name == "subscription_resumed"
    then grants
    else if name == "subscription_expired"
    then revokes
    else ignores

-- `_STRIPE_ACTIONS`
unfoldable pub stripe_action : String → Action
stripe_action name =
    if name == "customer.subscription.created"
    then grants
    else if name == "customer.subscription.updated"
    then grants
    else if name == "customer.subscription.deleted"
    then revokes
    else ignores

-- What a branch of `parse` reads.
pub record Read : Type 0 where
  pub event_type : String
  pub event_id : String
  pub custom : Json
  pub renews_at : Option ℕ
  pub price : Option ℕ × Option String
  pub customer_id : Option String
  pub action : Action

-- `(data.get("custom_data") or {}) if isinstance(data, dict) else {}`
unfoldable pub paddle_custom : Json → Result ParseError Json
unfolding get_dict is_dict
paddle_custom body = if is_dict body then get_dict "custom_data" body else ok empty

unfoldable pub parse_paddle : Python → Json → Result ParseError Read
unfolding get get_dict paddle_custom first_of text_of timestamp_of money identifier paddle_action
parse_paddle py payload = do
  event_type ← get "event_type" null payload
  event_id ← get "event_id" null payload
  body ← get_dict "data" payload
  custom ← paddle_custom body
  period ← get_dict "current_billing_period" body
  ends_at ← get "ends_at" null period
  items ← get "items" null body
  first ← first_of (or_json items (array (item empty no_items)))
  price ← get_dict "price" first
  unit ← get_dict "unit_price" price
  amount ← get "amount" null unit
  currency ← get "currency_code" null unit
  customer ← get "customer_id" null body
  ok (record {
    event_type = text_of py event_type;
    event_id = text_of py event_id;
    custom = custom;
    renews_at = timestamp_of py ends_at;
    price = money py amount currency;
    customer_id = identifier py customer;
    action = paddle_action (text_of py event_type);
  })

-- The members of `obj["items"]["data"]`, or `[]`.
unfoldable pub stripe_items : Json → Result ParseError Json
unfolding get get_dict
stripe_items obj = do
  items ← get_dict "items" obj
  body ← get "data" null items
  ok (or_json body (array no_items))

-- `items[0] if items and isinstance(items[0], dict) else {}`; a dict that is not empty has no key 0.
unfoldable pub first_item : Json → Result ParseError Json
unfolding is_dict is_true
first_item (array no_items) = ok empty
first_item (array (item first _)) = ok (if is_dict first then first else empty)
first_item (text s) = ok empty
first_item value = if is_true value then err python_error else ok empty

-- `_stripe_amount`
unfoldable pub stripe_amount : Python → Json → Result ParseError (Option ℕ × Option String)
unfolding stripe_items first_item get money
stripe_amount py obj = do
  items ← stripe_items obj
  first ← first_item items
  price ← get "price" null first
  plan ← get "plan" null first
  outer ← get "plan" null obj
  let chosen = or_json price (or_json plan (or_json outer empty)) in
      do
        older ← get "amount" null chosen
        amount ← get "unit_amount" older chosen
        currency ← get "currency" null chosen
        fallback ← get "currency" null obj
        ok (money py amount (or_json currency fallback))

-- `isinstance(value, int)`, which a `bool` is too.
unfoldable pub stamp_of : Json → List ℤ
stamp_of (integer n) = n ∷ []
stamp_of (boolean true) = pos 1 ∷ []
stamp_of (boolean false) = pos 0 ∷ []
stamp_of _ = []

unfoldable pub item_stamps : Items → Result ParseError (List ℤ)
unfolding is_dict get stamp_of
item_stamps no_items = ok []
item_stamps (item value rest) = do
  stamps ← item_stamps rest
  end ← if is_dict value then get "current_period_end" null value else ok null
  ok (stamp_of end ++ stamps)

-- `max(stamps)`
unfoldable pub latest : List ℤ → Option ℤ
latest [] = none
latest (n ∷ ns) =
    let rest = latest ns in
    elim rest [ none ↦ some n | some m ↦ if ltb_ℤ n m then some m else some n ]

-- The items are a list; characters of a text and keys of a dict are no dicts, and are passed over.
unfoldable pub stamps_of : Json → Result ParseError (List ℤ)
unfolding item_stamps
stamps_of (array items) = item_stamps items
stamps_of (dict _) = ok []
stamps_of (text _) = ok []
stamps_of _ = err python_error

-- `_stripe_period_end`
unfoldable pub stripe_period_end : Python → Json → Result ParseError (Option ℕ)
unfolding get stripe_items stamps_of stamp_of latest
stripe_period_end py obj = do
  outer ← get "current_period_end" null obj
  items ← stripe_items obj
  stamps ← stamps_of items
  elim (latest (stamp_of outer ++ stamps)) [
    | none ↦ ok none
    | some stamp ↦ elim (py.fromtimestamp stamp) [ none ↦ err python_error | some t ↦ ok (some t) ]
  ]

-- `customer.get("id") if isinstance(customer, dict) else customer`
unfoldable pub stripe_customer : Json → Result ParseError Json
unfolding is_dict get
stripe_customer customer = if is_dict customer then get "id" null customer else ok customer

unfoldable pub parse_stripe : Python → Json → Result ParseError Read
unfolding get get_dict stripe_period_end stripe_amount stripe_customer text_of identifier
    stripe_action
parse_stripe py payload = do
  event_type ← get "type" null payload
  event_id ← get "id" null payload
  body ← get_dict "data" payload
  obj ← get_dict "object" body
  custom ← get_dict "metadata" obj
  renews_at ← stripe_period_end py obj
  price ← stripe_amount py obj
  customer ← get "customer" null obj
  customer_id ← stripe_customer customer
  ok (record {
    event_type = text_of py event_type;
    event_id = text_of py event_id;
    custom = custom;
    renews_at = renews_at;
    price = price;
    customer_id = identifier py customer_id;
    action = stripe_action (text_of py event_type);
  })

-- `lowered.get("x-event-name") or meta.get("event_name") or ""`
unfoldable pub event_name : Python → String → Json → String
unfolding text_of
event_name py named value = if named == "" then text_of py value else named

unfoldable pub parse_lemonsqueezy :
    Webhooks → Python → String → List (String × String) → Json → Result ParseError Read
unfolding header get get_dict timestamp_of identifier lemonsqueezy_action event_name
parse_lemonsqueezy w py raw_body headers payload = do
  meta ← get_dict "meta" payload
  named ← get "event_name" null meta
  custom ← get_dict "custom_data" meta
  body ← get_dict "data" payload
  attributes ← get_dict "attributes" body
  renews_at ← get "renews_at" null attributes
  ends_at ← get "ends_at" null attributes
  customer ← get "customer_id" null attributes
  let event_type = event_name py (header w "x-event-name" headers) named in
      ok (record {
        event_type = event_type;
        event_id = py.sha256 raw_body;
        custom = custom;
        renews_at = timestamp_of py (or_json renews_at ends_at);
        price = (none, none);
        customer_id = identifier py customer;
        action = lemonsqueezy_action event_type;
      })

unfoldable pub parse :
    Webhooks → Python → String → List (String × String) → Json → Result ParseError Incoming
unfolding parse_paddle parse_stripe parse_lemonsqueezy household_id_of
parse w py raw_body headers payload = do
  read ←
      if w.billing_processor == "paddle"
      then parse_paddle py payload
      else if w.billing_processor == "stripe"
      then parse_stripe py payload
      else parse_lemonsqueezy w py raw_body headers payload
  raise_if (read.event_type == "") unreadable
  raise_if (read.event_id == "") unreadable
  ok (record {
    processor = w.billing_processor;
    event_id = read.event_id;
    event_type = read.event_type;
    action = read.action;
    household_id = household_id_of py read.custom;
    renews_at = read.renews_at;
    price_pence = read.price.0;
    price_currency = read.price.1;
    customer_id = read.customer_id;
  })
