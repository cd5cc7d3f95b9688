-- ===== src/Billing/Overlap.antt =====
-- Two deliveries of one event in backend/app/services/billing.py that overlap: both pass the check
-- before either writes.
pub mod Households
use meals.Prelude.{
  ℕ, ◌≡◌, refl, ◌∙◌, ap, sym, subst, ◌≤◌, ◌⊎◌, String, true, false, Option, none, some, List, [],
  ◌∷◌, arith, any, any-append, update_first, ok, err, ◌==◌, nat_eq, Option-cases, Bool-cases, map,
  find, find-holds, update_first_found, nat_beq_iff, Result, Result-cases, inl, inr,
}
use meals.Models.{Db}
use meals.Models.Users.{Household}
use meals.Models.Billing.{Outcome, duplicate, granted, revoked, ignored, refused}
use meals.Entitlements.{EntitlementError, grant, revoke, write_grant, snapshot_price, reset_dunning}
use meals.Billing.{
  Incoming, Offer, is_event, already_recorded, webhook_note, price_from, price_to_snapshot,
  grant_of, write_ledger, finish, LedgerError, put_household, settle, settle_household, Action,
  grants, revokes, ignores,
}
use meals.Billing.Credit.{credit, credit_household, id-grant, id-revoke, is_stray, Action-cases}
use meals.Billing.Ledger.{Settled, finish-Settled, finish_stray, finish-Branch}
use Households.{
  credit_again, but_price_set_at, grant_stale, refused_again, id-credit_household,
  update_first_over, map-update_first,
}

write_again :
    {Q : Type 0} (e : Incoming) (outcome : Outcome) (id : Option ℕ) (mid : Db Q)
    → already_recorded e mid.billing_events ≡ true
    → write_ledger e outcome id mid ≡ ok (duplicate, mid)
unfolding write_ledger
write_again e outcome id mid again = ground (arith, again)

-- The database but for the instants at which the prices of its households were set.
unfoldable pub but_prices_set_at : {Q : Type 0} → Db Q → Db Q
unfolding but_price_set_at
but_prices_set_at db = record db { households = map but_price_set_at db.households }

module _ {Q : Type 0} (now later : ℕ) (o : Offer) (e : Incoming) (db : Db Q) (outcome : Outcome)
    (first : Db Q) (fresh : already_recorded e db.billing_events ≡ false)
    (ended : finish now o e db ≡ ok (outcome, first)) where
  settled : Settled now o e db (finish now o e db)
  settled = elim (Bool-cases (is_stray e db.households)) [
    | inl out ↦ absurd (ground (arith, ended, finish_stray now o e db fresh out))
    | inr lands ↦ finish-Settled now o e db fresh lands
  ]

  same_end : settled.left ≡ first
  same_end = ground (arith, ended, settled.ends)

  credited : first.households ≡ credit now o e db.households
  credited = ap (λ (x : Db Q). x.households) (sym same_end) ∙ settled.households

  recorded : already_recorded e first.billing_events ≡ true
  unfolding already_recorded any
  recorded = ground (
    arith,
    ap (λ (x : Db Q). x.billing_events) same_end,
    settled.appended,
    settled.same_event,
    any-append (is_event e) db.billing_events (settled.row ∷ []),
  )

  finish_after : now ≤ later → finish later o e first ≡ ok (duplicate, first)
  finish_after le =
      let b = finish-Branch later o e first in
      let same : b.mid.households ≡ first.households =
        b.households
        ∙ ap (credit later o e) credited
        ∙ credit_again now later o e db.households le
        ∙ sym credited in
      let back : b.mid ≡ first = b.frame ∙ ap (λ hs. record first { households = hs }) same in
      b.ends
      ∙ write_again e b.outcome b.id b.mid (ap (already_recorded e) b.rows ∙ recorded)
      ∙ ap (λ (x : Db Q). ok (duplicate, x)) back

  module _ (id : ℕ) (h : Household) (named : e.household_id ≡ some id)
      (found : find (λ x. x.id == id) db.households ≡ some h) where
    own : h.id ≡ id
    own = (nat_beq_iff h.id id).0 (find-holds (λ (x : Household). x.id == id) db.households h found)

    first_households :
        first.households
        ≡ update_first (λ x. x.id == id) (λ _. credit_household now o e h) db.households
    unfolding credit
    first_households =
        credited
        ∙ ground (
          arith,
          named,
          update_first_found (λ (x : Household). x.id == id) (credit_household now o e)
              db.households h found,
        )

    put_stale :
        (h₂ : Household)
        → h₂.id ≡ id
        → but_price_set_at h₂ ≡ but_price_set_at (credit_household now o e h)
        → but_prices_set_at (put_household h₂ first) ≡ but_prices_set_at first
    unfolding but_prices_set_at put_household
    put_stale h₂ at same =
        let h₁ = credit_household now o e h in
        ap (λ hs. record first { households = hs })
          (ap
              (λ k.
                map but_price_set_at
                  (update_first (λ (x : Household). x.id == k) (λ _. h₂) first.households))
              at
            ∙ ap (λ hs. map but_price_set_at (update_first (λ x. x.id == id) (λ _. h₂) hs))
                first_households
            ∙ ap (map but_price_set_at)
                (update_first_over id h₁ h₂ db.households (id-credit_household now o e h ∙ own))
            ∙ map-update_first id h₂ h₁ db.households same
            ∙ ap (map but_price_set_at) (sym first_households))

    -- What the second delivery writes from the row that it read too early.
    Harmless : Result LedgerError (Outcome × Db Q) → Type 0
    Harmless r =
        (second : Db Q) × (r ≡ ok (duplicate, second))
        × (but_prices_set_at second ≡ but_prices_set_at first)

    nothing_written : (what : Outcome) → Harmless (write_ledger e what e.household_id first)
    unfolding Harmless
    nothing_written what = (first, write_again e what e.household_id first recorded, refl)

    overwritten :
        (what : Outcome) (h₂ : Household)
        → h₂.id ≡ id
        → but_price_set_at h₂ ≡ but_price_set_at (credit_household now o e h)
        → Harmless (settle e what (ok h₂) first)
    unfolding Harmless settle put_household
    overwritten what h₂ at same = (
      put_household h₂ first,
      write_again e what e.household_id (put_household h₂ first) recorded,
      put_stale h₂ at same,
    )

    granted_stale :
        (r : Result EntitlementError Household) (until : ℕ)
        → now ≤ later
        → e.action ≡ grants
        → e.renews_at ≡ some until
        → grant later (grant_of o e h) h ≡ r
        → Harmless (settle e granted r first)
    unfolding settle credit_household
    granted_stale (err x) until le a t k = nothing_written refused
    granted_stale (ok h₂) until le a t k = elim (Result-cases (grant now (grant_of o e h) h)) [
      | inr (x, g) ↦
          let (y, again) = refused_again now later o e h x le g in absurd (ground (arith, k, again))
      | inl (h₁, g) ↦
          overwritten granted h₂ (id-grant later o e h h₂ k ∙ own)
            (grant_stale now later o e h h₁ h₂ g k ∙ ap but_price_set_at (ground (arith, a, t, g)))
    ]

    settle_stale : now ≤ later → Harmless (settle_household later o e h first)
    unfolding settle_household credit_household
    settle_stale le = elim (Action-cases e.action) [
      | inl a ↦
          let same : write_ledger e ignored e.household_id first
              ≡ settle_household later o e h first =
            ground (arith, a) in
          subst Harmless same (nothing_written ignored)
      | inr (inl a) ↦ elim (Option-cases e.renews_at) [
        | inl t ↦
            let same : write_ledger e refused e.household_id first
                ≡ settle_household later o e h first =
              ground (arith, a, t) in
            subst Harmless same (nothing_written refused)
        | inr (until, t) ↦
            let same : settle e granted (grant later (grant_of o e h) h) first
                ≡ settle_household later o e h first =
              ground (arith, a, t) in
            subst Harmless same (granted_stale (grant later (grant_of o e h) h) until le a t refl)
      ]
      | inr (inr a) ↦
          let h₂ = revoke (some (webhook_note e)) h in
          let same : settle e revoked (ok h₂) first ≡ settle_household later o e h first =
            ground (arith, a) in
          subst Harmless same (
            overwritten revoked h₂ (id-revoke (some (webhook_note e)) h ∙ own)
              (ap but_price_set_at (ground (arith, a))))
    ]

    -- Two deliveries of one event that is new and names a household that is there overlap: both
    -- pass the check for a duplicate, and one finishes first. The other, at no earlier an instant,
    -- is answered as a duplicate and adds no row. If it read the household behind the first, it
    -- leaves the whole database as the first left it; if it read it before, it differs at most in
    -- the instant at which the household's price was set.
    pub finish_again :
        now ≤ later
        → (finish later o e first ≡ ok (duplicate, first))
          × ((second : Db Q) × (settle_household later o e h first ≡ ok (duplicate, second))
              × (but_prices_set_at second ≡ but_prices_set_at first))
    unfolding Harmless
    finish_again le = (finish_after le, settle_stale le)
