-- ===== src/Billing/Webhook.antt =====
-- backend/app/services/billing.py, `handle`: a webhook from its bytes to the database.
use meals.Prelude.{
  ℕ, ◌*◌, ◌≤◌, ◌≡◌, ◌∙◌, ap, sym, String, true, false, ◌&&◌, some, List, [], any, ◌==◌, string_eq,
  if◌then◌else◌, Result, ok, ◌>>=◌, ◌>>◌, >>=-eq-ok, map_err, map_err-eq-ok, concat,
}
use meals.Models.{Db}
use meals.Models.Billing.{Outcome}
use meals.Billing.{Offer, LedgerError, handle_event}
use meals.Billing.Signature.{
  SignatureError, Webhooks, second, secret_of, header, age, read_parts, stripe_parts, verify_paddle,
  verify_stripe, verify_plain, verify,
}
use meals.Billing.Signature.Authentic.{verify_stripe-authentic}
use meals.Billing.Payload.{Json, ParseError, Python}
use meals.Billing.Payload.Parse.{parse}

pub data WebhookError : Type 0 where
  not_verified : SignatureError → WebhookError
  not_parsed : ParseError → WebhookError
  not_recorded : LedgerError → WebhookError

module _ {Q : Type 0} where
  unfoldable pub handle_webhook :
      Webhooks
      → Python
      → ℕ
      → Offer
      → String
      → List (String × String)
      → Json
      → Db Q
      → Result WebhookError (Outcome × Db Q)
  unfolding verify parse handle_event
  handle_webhook w py now o raw_body headers payload db = do
    map_err not_verified (verify w now raw_body headers)
    event ← map_err not_parsed (parse w py raw_body headers payload)
    map_err not_recorded (handle_event now o event db)

  -- Where Stripe is the processor, a webhook that is applied, whatever becomes of it, carries in
  -- its signature header, under the scheme `v1`, the digest of that header's own timestamp and the
  -- body under the secret; and that timestamp can be read and is no further from now than the
  -- tolerance. A digest under any other scheme is never enough.
  pub handle_webhook-authentic :
      (w : Webhooks) (py : Python) (now : ℕ) (o : Offer) (raw_body : String)
      (headers : List (String × String)) (payload : Json) (db : Db Q) (end : Outcome × Db Q)
      → w.billing_processor ≡ "stripe"
      → handle_webhook w py now o raw_body headers payload db ≡ ok end
      → let parts = stripe_parts w (header w "stripe-signature" headers) in
        let timestamp = (read_parts parts ("", [])).0 in
        let expected = w.hmac_sha256 (secret_of w) (concat timestamp (concat "." raw_body)) in
        (any (λ q. q.0 == "v1" && expected == q.1) parts ≡ true)
        × ((signed_at : ℕ) × (w.read_timestamp timestamp ≡ some signed_at)
            × (age now signed_at ≤ w.billing_signature_tolerance_seconds * second))
  unfolding handle_webhook verify
  handle_webhook-authentic w py now o raw_body headers payload db end stripe h =
      let (_, v, _) = >>=-eq-ok (map_err not_verified (verify w now raw_body headers)) _ h in
      let verified : verify w now raw_body headers ≡ ok tt = map_err-eq-ok not_verified _ v in
      let not_paddle : (w.billing_processor == "paddle") ≡ false = ap (λ p. p == "paddle") stripe in
      let is_stripe : (w.billing_processor == "stripe") ≡ true = ap (λ p. p == "stripe") stripe in
      let text = header w "stripe-signature" headers in
      let chosen : verify_stripe w now raw_body text ≡ ok tt =
        ap
          (λ b.
            if b
            then verify_stripe w now raw_body text
            else verify_plain w raw_body (header w "x-signature" headers))
          (sym is_stripe)
        ∙ ap
            (λ b.
              if b
              then verify_paddle w now raw_body (header w "paddle-signature" headers)
              else (if w.billing_processor == "stripe"
                  then verify_stripe w now raw_body text
                  else verify_plain w raw_body (header w "x-signature" headers)))
            (sym not_paddle)
        ∙ verified in
      verify_stripe-authentic w now raw_body text chosen
