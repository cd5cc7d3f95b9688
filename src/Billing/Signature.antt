-- ===== src/Billing/Signature.antt =====
-- backend/app/services/billing.py, "verification": who signed a webhook, and when.
pub mod Authentic
use meals.Prelude.{
  ℕ, ◌+◌, ◌-◌, ◌*◌, max, String, Bool, true, false, ◌&&◌, ◌||◌, not, ltb, leb, Option, none, some,
  List, [], ◌∷◌, ◌++◌, map, ◌==◌, string_eq, if◌then◌else◌, Result, ok, err, ◌>>=◌, ◌>>◌, raise_if,
  found_or, concat, is_ascii, has_char, partition, split,
}

-- `type_error` is what `compare_digest` raises at a text that is not ASCII; the others are the
-- outcomes of a `BillingError`.
pub data SignatureError : Type 0 where
  unsigned bad_signature stale type_error : SignatureError

-- The settings, and what the program takes from hmac, datetime and `str`. `read_timestamp` is
-- `datetime.fromtimestamp(int(text), tz=UTC)`, and `none` its `ValueError` or `OSError`.
pub record Webhooks : Type 0 where
  pub billing_processor : String
  pub billing_webhook_secret : Option String
  pub billing_signature_tolerance_seconds : ℕ
  pub hmac_sha256 : String → String → String
  pub read_timestamp : String → Option ℕ
  pub strip : String → String
  pub lower : String → String

abbrev pub second : ℕ
second = 1_000_000

-- `(settings.billing_webhook_secret or "")`
unfoldable pub secret_of : Webhooks → String
secret_of w = elim w.billing_webhook_secret [ none ↦ "" | some secret ↦ secret ]

-- `dict(pairs).get(key, "")`: the last pair with the key.
unfoldable pub last_value : String → List (String × String) → Option String
last_value key [] = none
last_value key ((name, value) ∷ pairs) =
    let later = last_value key pairs in
    elim later [ some found ↦ some found | none ↦ if name == key then some value else none ]

abbrev pub or_empty : Option String → String
or_empty none = ""
or_empty (some value) = value

unfoldable pub header : Webhooks → String → List (String × String) → String
unfolding last_value
header w name headers = or_empty (last_value name (map (λ h. (w.lower h.0, h.1)) headers))

-- `hmac.compare_digest` of two texts.
unfoldable pub compare_digest : String → String → Result SignatureError Bool
unfolding is_ascii
compare_digest a b = if is_ascii a && is_ascii b then ok (a == b) else err type_error

-- `any(hmac.compare_digest(expected, candidate) for candidate in offered)`
unfoldable pub any_digest : String → List String → Result SignatureError Bool
unfolding compare_digest
any_digest expected [] = ok false
any_digest expected (candidate ∷ offered) =
    let rest = any_digest expected offered in
    elim (compare_digest expected candidate) [
      | err e ↦ err e
      | ok same ↦ if same then ok true else rest
    ]

-- `abs(now - signed_at)`
abbrev pub age : ℕ → ℕ → ℕ
age now signed_at = (now - signed_at) + (signed_at - now)

-- `_check_freshness`
unfoldable pub check_freshness : Webhooks → ℕ → String → Result SignatureError (Unit {0})
check_freshness w now timestamp = do
  signed_at ← found_or unsigned (w.read_timestamp timestamp)
  raise_if (ltb (w.billing_signature_tolerance_seconds * second) (age now signed_at)) stale

-- The parts of a Paddle signature, `ts=...;h1=...`.
unfoldable pub paddle_parts : List String → List (String × String)
unfolding has_char partition
paddle_parts [] = []
paddle_parts (part ∷ parts) =
    if has_char "=" part then partition "=" part ∷ paddle_parts parts else paddle_parts parts

-- The loop over the parts of a Stripe signature: the last `t`, and every `v1`.
unfoldable pub read_parts : List (String × String) → String × List String → String × List String
read_parts [] read = read
read_parts ((prefix, value) ∷ parts) (timestamp, offered) =
    if prefix == "t"
    then read_parts parts (value, offered)
    else if prefix == "v1"
    then read_parts parts (timestamp, offered ++ (value ∷ []))
    else read_parts parts (timestamp, offered)

unfoldable pub stripe_parts : Webhooks → String → List (String × String)
unfolding split partition
stripe_parts w text = map (λ part. partition "=" (w.strip part)) (split "," text)

abbrev pub is_empty : List String → Bool
is_empty [] = true
is_empty (_ ∷ _) = false

unfoldable pub verify_paddle : Webhooks → ℕ → String → String → Result SignatureError (Unit {0})
unfolding paddle_parts last_value split compare_digest check_freshness secret_of
verify_paddle w now raw_body text =
    let parts = paddle_parts (split ";" text) in
    let timestamp = or_empty (last_value "ts" parts) in
    let provided = or_empty (last_value "h1" parts) in
    let expected = w.hmac_sha256 (secret_of w) (concat timestamp (concat ":" raw_body)) in
    do
      raise_if (timestamp == "" || provided == "") unsigned
      same ← compare_digest expected provided
      raise_if (not same) bad_signature
      check_freshness w now timestamp

unfoldable pub verify_stripe : Webhooks → ℕ → String → String → Result SignatureError (Unit {0})
unfolding read_parts stripe_parts any_digest check_freshness secret_of
verify_stripe w now raw_body text =
    let (timestamp, offered) = read_parts (stripe_parts w text) ("", []) in
    let expected = w.hmac_sha256 (secret_of w) (concat timestamp (concat "." raw_body)) in
    do
      raise_if (timestamp == "" || is_empty offered) unsigned
      same ← any_digest expected offered
      raise_if (not same) bad_signature
      check_freshness w now timestamp

unfoldable pub verify_plain : Webhooks → String → String → Result SignatureError (Unit {0})
unfolding compare_digest secret_of
verify_plain w raw_body provided = if provided == "" then err bad_signature else do
  same ← compare_digest (w.hmac_sha256 (secret_of w) raw_body) provided
  raise_if (not same) bad_signature

unfoldable pub verify :
    Webhooks → ℕ → String → List (String × String) → Result SignatureError (Unit {0})
unfolding header verify_paddle verify_stripe verify_plain
verify w now raw_body headers =
    if w.billing_processor == "paddle"
    then verify_paddle w now raw_body (header w "paddle-signature" headers)
    else if w.billing_processor == "stripe"
    then verify_stripe w now raw_body (header w "stripe-signature" headers)
    else verify_plain w raw_body (header w "x-signature" headers)
