-- ===== src/Billing/Deliveries.antt =====
-- A stream of deliveries, with retries and repeats, against each event credited once.
use meals.Prelude.{
  ℕ, ◌≡◌, refl, ◌∙◌, ap, String, Bool, true, false, ◌||◌, ◌&&◌, List, [], ◌∷◌, ◌++◌, map, arith,
  any, ◌==◌, string_eq, Bool-cases, inl, inr, if◌then◌else◌, Result, ok, err,
}
use meals.Models.{Db}
use meals.Models.Users.{Household}
use meals.Models.Billing.{BillingEvent, Outcome}
use meals.Billing.{Incoming, Offer, is_event, already_recorded, LedgerError, handle_event}
use meals.Billing.Credit.{is_stray, credit}
use meals.Billing.Ledger.{finish-Settled, finish_stray}

-- What a processor's retries share.
abbrev pub Key : Type 0
Key = String × String

abbrev pub key : Incoming → Key
key e = (e.processor, e.event_id)

abbrev pub row_key : BillingEvent → Key
row_key r = (r.processor, r.event_id)

unfoldable pub is_seen : Key → List Key → Bool
is_seen (processor, id) [] = false
is_seen (processor, id) ((p, i) ∷ seen) =
    (p == processor && i == id) || is_seen (processor, id) seen

-- The specification, of the households and the keys that the ledger has: each key is credited at the
-- first delivery that can be recorded, and there is no ledger of rows.
unfoldable pub credit_once :
    Offer → List Key → List (ℕ × Incoming) → List Household → List Household × List Key
unfolding is_seen is_stray credit
credit_once o seen [] hs = (hs, seen)
credit_once o seen ((now, e) ∷ es) hs =
    if is_seen (key e) seen || is_stray e hs
    then credit_once o seen es hs
    else credit_once o (seen ++ (key e ∷ [])) es (credit now o e hs)

module _ {Q : Type 0} where
  -- What a delivery leaves: an error has rolled back.
  abbrev pub left_by : Db Q → Result LedgerError (Outcome × Db Q) → Db Q
  left_by db (ok (_, next)) = next
  left_by db (err _) = db

  -- The deliveries in their order of arrival, each at its own instant.
  unfoldable pub deliver_all : Offer → List (ℕ × Incoming) → Db Q → Db Q
  unfolding handle_event
  deliver_all o [] db = db
  deliver_all o ((now, e) ∷ es) db = deliver_all o es (left_by db (handle_event now o e db))

is_seen-already_recorded :
    (e : Incoming) (rows : List BillingEvent)
    → is_seen (key e) (map row_key rows) ≡ already_recorded e rows
unfolding is_seen already_recorded any is_event
is_seen-already_recorded e [] = refl
is_seen-already_recorded e (r ∷ rows) = ground (arith, is_seen-already_recorded e rows)

map-snoc :
    (rows : List BillingEvent) (r : BillingEvent)
    → map row_key (rows ++ (r ∷ [])) ≡ map row_key rows ++ (row_key r ∷ [])
map-snoc [] r = refl
map-snoc (x ∷ rows) r = ap (row_key x ∷◌) (map-snoc rows r)

module _ {Q : Type 0} (o : Offer) where
  -- However the processor repeats and retries its events, the households end as if each event had
  -- been credited once, at its first delivery, and not at all where the ledger had it; and the keys
  -- of the ledger are those that it had, followed by each key that is new, once and in its order. A
  -- delivery that asks for nothing and names a household that is not there fails at the ledger: it
  -- changes nothing, and its key stays new.
  pub deliver_all-credit_once :
      (es : List (ℕ × Incoming)) (db : Db Q)
      → let end = deliver_all o es db in
        (end.households, map row_key end.billing_events)
        ≡ credit_once o (map row_key db.billing_events) es db.households
  unfolding deliver_all credit_once handle_event
  deliver_all-credit_once [] db = refl
  deliver_all-credit_once ((now, e) ∷ es) db =
      elim (Bool-cases (already_recorded e db.billing_events)) [
        | inl k ↦
            let s : is_seen (key e) (map row_key db.billing_events) ≡ true =
              is_seen-already_recorded e db.billing_events ∙ k in
            ground (arith, k, s, deliver_all-credit_once es db)
        | inr k ↦
            let s : is_seen (key e) (map row_key db.billing_events) ≡ false =
              is_seen-already_recorded e db.billing_events ∙ k in
            elim (Bool-cases (is_stray e db.households)) [
              | inl out ↦
                  ground
                    (arith, k, s, out, finish_stray now o e db k out, deliver_all-credit_once es db)
              | inr lands ↦
                  let d = finish-Settled now o e db k lands in
                  let keys : map row_key d.left.billing_events
                      ≡ map row_key db.billing_events ++ (key e ∷ []) =
                    ap (map row_key) d.appended
                    ∙ map-snoc db.billing_events d.row
                    ∙ ap (λ (k : Key). map row_key db.billing_events ++ (k ∷ []))
                        (ap (λ (p : String). (p, d.row.event_id)) d.processor
                          ∙ ap (λ (i : String). (e.processor, i)) d.event_id) in
                  ground (
                    arith,
                    k,
                    s,
                    lands,
                    d.ends,
                    keys,
                    d.households,
                    deliver_all-credit_once es d.left,
                  )
            ]
      ]
