-- ===== src/Billing/Signature/Authentic.antt =====
-- verify of backend/app/services/billing.py, for Stripe.
use meals.Prelude.{
  ℕ, ◌*◌, ◌≤◌, ◌≡◌, ◌⊎◌, ◌∙◌, ap, sym, String, Bool, true, ◌&&◌, ◌||◌, not, some, List, [], ◌∷◌,
  ◌++◌, arith, any, any-append, ◌==◌, string_eq, Bool-cases, Option-cases, inl, inr, ok, >>=-eq-ok,
  raise_if, concat,
}
use meals.Billing.Signature.{
  Webhooks, second, secret_of, compare_digest, any_digest, age, check_freshness, read_parts,
  stripe_parts, verify_stripe, unsigned, bad_signature, is_empty,
}

-- One of the offered digests is the expected one.
is_offered :
    (expected : String) (offered : List String)
    → any_digest expected offered ≡ ok true
    → any (λ c. expected == c) offered ≡ true
unfolding any_digest compare_digest any
is_offered expected [] h = cc
is_offered expected (c ∷ cs) h = ground (arith, h, is_offered expected cs)

-- A digest that is read now, or was read before.
in_front :
    (p : String → Bool) (prefix value : String) (parts : List (String × String))
    (offered : List String)
    → (prefix == "v1") ≡ true
    → (any p offered || any p (value ∷ [])) ≡ true
    → (any p offered ≡ true) ⊎ (any (λ q. q.0 == "v1" && p q.1) ((prefix, value) ∷ parts) ≡ true)
unfolding any
in_front p prefix value parts offered v h = elim (Bool-cases (any p offered)) [
  | inl e ↦ inl e
  | inr e ↦ inr (ground (arith, h, e, v))
]

-- What is offered stands in the parts behind `v1`.
read_from :
    (p : String → Bool) (parts : List (String × String)) (timestamp : String)
    (offered : List String)
    → any p (read_parts parts (timestamp, offered)).1 ≡ true
    → (any p offered ≡ true) ⊎ (any (λ q. q.0 == "v1" && p q.1) parts ≡ true)
unfolding read_parts any
read_from p [] timestamp offered h = inl h
read_from p ((prefix, value) ∷ parts) timestamp offered h = elim (Bool-cases (prefix == "t")) [
  | inl t ↦ elim (read_from p parts value offered (ground (arith, h, t))) [
    | inl e ↦ inl e
    | inr e ↦ inr (ground (arith, e))
  ]
  | inr t ↦ elim (Bool-cases (prefix == "v1")) [
    | inl v ↦
        elim (read_from p parts timestamp (offered ++ (value ∷ [])) (ground (arith, h, t, v))) [
          | inl e ↦
              in_front p prefix value parts offered v (sym (any-append p offered (value ∷ [])) ∙ e)
          | inr e ↦ inr (ground (arith, e))
        ]
    | inr v ↦ elim (read_from p parts timestamp offered (ground (arith, h, t, v))) [
      | inl e ↦ inl e
      | inr e ↦ inr (ground (arith, e))
    ]
  ]
]

fresh_lem :
    (w : Webhooks) (now : ℕ) (timestamp : String)
    → check_freshness w now timestamp ≡ ok tt
    → (signed_at : ℕ) × (w.read_timestamp timestamp ≡ some signed_at)
      × (age now signed_at ≤ w.billing_signature_tolerance_seconds * second)
unfolding check_freshness
fresh_lem w now timestamp h = elim (Option-cases (w.read_timestamp timestamp)) [
  | inl n ↦ absurd (ground (arith, n, h))
  | inr (signed_at, n) ↦ (signed_at, n, ground (arith, n, h))
]

-- When a Stripe webhook is accepted, the header carries, under the scheme `v1`, the digest of the
-- header's own timestamp and the body under the secret, and that timestamp can be read and is no
-- further from now than the tolerance. A digest under any other scheme is never enough.
pub verify_stripe-authentic :
    (w : Webhooks) (now : ℕ) (raw_body text : String)
    → verify_stripe w now raw_body text ≡ ok tt
    → let timestamp = (read_parts (stripe_parts w text) ("", [])).0 in
      let expected = w.hmac_sha256 (secret_of w) (concat timestamp (concat "." raw_body)) in
      (any (λ q. q.0 == "v1" && expected == q.1) (stripe_parts w text) ≡ true)
      × ((signed_at : ℕ) × (w.read_timestamp timestamp ≡ some signed_at)
          × (age now signed_at ≤ w.billing_signature_tolerance_seconds * second))
unfolding verify_stripe any
verify_stripe-authentic w now raw_body text h =
    let parts = stripe_parts w text in
    let read = read_parts parts ("", []) in
    let timestamp = read.0 in
    let expected = w.hmac_sha256 (secret_of w) (concat timestamp (concat "." raw_body)) in
    let (_, _, h₁) = >>=-eq-ok (raise_if (timestamp == "" || is_empty read.1) unsigned) _ h in
    let (same, d, h₂) = >>=-eq-ok (any_digest expected read.1) _ h₁ in
    let (_, s, h₃) = >>=-eq-ok (raise_if (not same) bad_signature) _ h₂ in
    let yes : same ≡ true = ground (arith, s) in
    let offered = is_offered expected read.1 (d ∙ ap (λ b. ok b) yes) in
    (
      elim (read_from (λ c. expected == c) parts "" [] offered) [
        | inl e ↦ absurd (ground (arith, e))
        | inr e ↦ e
      ],
      fresh_lem w now timestamp h₃,
    )
