-- ===== src/Billing/Ledger.antt =====
-- What one delivery writes to the ledger and to the households.
use meals.Prelude.{
  ℕ, ◌≡◌, refl, ◌⊎◌, true, false, Option, none, some, List, [], ◌∷◌, ◌++◌, arith, find,
  update_first, find-update_first, if◌then◌else◌, update_first_found, update_first_same,
  update_first_missing, Result, ok, err, ◌==◌, nat_eq, string_eq, nat_beq_iff, find-holds, sym, ap,
  ◌∙◌, subst, Option-cases, inl, inr,
}
use meals.Models.{Db}
use meals.Models.Users.{Household}
use meals.Models.Billing.{BillingEvent, Outcome, granted, revoked, ignored, refused, orphan}
use meals.Entitlements.{grant, revoke, EntitlementError}
use meals.Billing.{
  Incoming, grants, Offer, is_event, already_recorded, ledger_row, LedgerError, foreign_key,
  is_dangling, webhook_note, grant_of, write_ledger, put_household, settle, settle_household,
  finish,
}
use meals.Billing.Credit.{
  is_stray, credit_household, credit, id-grant, id-revoke, is_event-ledger_row, Action-cases,
}

module _ {Q : Type 0} where
  -- A row is written where the key is new and the household is there.
  write_ledger_new :
      (e : Incoming) (outcome : Outcome) (id : Option ℕ) (db : Db Q)
      → already_recorded e db.billing_events ≡ false
      → write_ledger e outcome id db ≡ (
          if is_dangling id db.households
          then err foreign_key
          else ok (
            outcome,
            record db { billing_events = db.billing_events ++ (ledger_row e outcome id ∷ []) },
          ))
  unfolding write_ledger
  write_ledger_new e outcome id db h = ground (arith, h)

  -- The end of an event: the households behind it, and the one row that it adds to the ledger.
  pub record Settled (now : ℕ) (o : Offer) (e : Incoming) (db : Db Q)
      (r : Result LedgerError (Outcome × Db Q)) : Type 0 where
    pub outcome : Outcome
    pub left : Db Q
    pub ends : r ≡ ok (outcome, left)
    pub households : left.households ≡ credit now o e db.households
    pub row : BillingEvent
    pub appended : left.billing_events ≡ db.billing_events ++ (row ∷ [])
    pub same_event : is_event e row ≡ true
    pub processor : row.processor ≡ e.processor
    pub event_id : row.event_id ≡ e.event_id

  -- A ledger row behind a change of the households.
  written-Settled :
      (now : ℕ) (o : Offer) (e : Incoming) (outcome : Outcome) (id : Option ℕ) (db mid : Db Q)
      → already_recorded e db.billing_events ≡ false
      → is_dangling id mid.households ≡ false
      → mid.billing_events ≡ db.billing_events
      → mid.households ≡ credit now o e db.households
      → Settled now o e db (write_ledger e outcome id mid)
  unfolding ledger_row
  written-Settled now o e outcome id db mid fresh there rows hs = record {
    outcome = outcome;
    left = record mid { billing_events = mid.billing_events ++ (ledger_row e outcome id ∷ []) };
    ends = ground (arith, there, write_ledger_new e outcome id mid (ground (arith, rows, fresh)));
    households = hs;
    row = ledger_row e outcome id;
    appended = ap (λ (x : List BillingEvent). x ++ (ledger_row e outcome id ∷ [])) rows;
    same_event = is_event-ledger_row e outcome id;
    processor = refl;
    event_id = refl;
  }

  -- Every branch ends at the ledger, behind the credit of the household; only a row of an event
  -- that is ignored can name a household that is not there.
  pub record Branch (now : ℕ) (o : Offer) (e : Incoming) (db : Db Q)
      (r : Result LedgerError (Outcome × Db Q)) : Type 0 where
    pub outcome : Outcome
    pub id : Option ℕ
    pub mid : Db Q
    pub ends : r ≡ write_ledger e outcome id mid
    pub rows : mid.billing_events ≡ db.billing_events
    pub frame : mid ≡ record db { households = mid.households }
    pub households : mid.households ≡ credit now o e db.households
    pub lands : is_dangling id mid.households ≡ is_stray e db.households

  module _ (now : ℕ) (o : Offer) (e : Incoming) (db : Db Q) where
    unchanged :
        (outcome : Outcome) (id : Option ℕ)
        → credit now o e db.households ≡ db.households
        → is_dangling id db.households ≡ is_stray e db.households
        → Branch now o e db (write_ledger e outcome id db)
    unchanged outcome id same lands = record {
      outcome = outcome;
      id = id;
      mid = db;
      ends = refl;
      rows = refl;
      frame = refl;
      households = sym same;
      lands = lands;
    }

    module _ (id : ℕ) (h : Household) (named : e.household_id ≡ some id)
        (found : find (λ x. x.id == id) db.households ≡ some h) where
      own : h.id ≡ id
      own =
          (nat_beq_iff h.id id).0 (find-holds (λ (x : Household). x.id == id) db.households h found)

      -- A row that names the household lands, whatever has become of the household.
      here_lands : is_dangling e.household_id db.households ≡ is_stray e db.households
      unfolding is_dangling is_stray
      here_lands = ground (arith, named, found)

      credited :
          (h' : Household)
          → credit_household now o e h ≡ h'
          → credit now o e db.households ≡ update_first (λ x. x.id == id) (λ _. h') db.households
      unfolding credit
      credited h' c = ground (
        arith,
        named,
        c,
        update_first_found (λ (x : Household). x.id == id) (credit_household now o e) db.households
            h found,
      )

      credited_same : credit_household now o e h ≡ h → credit now o e db.households ≡ db.households
      credited_same c =
          credited h c ∙ update_first_same (λ (x : Household). x.id == id) db.households h found

      changed_lands :
          (h' : Household)
          → h'.id ≡ h.id
          → is_dangling e.household_id (put_household h' db).households ≡ is_stray e db.households
      unfolding put_household is_dangling is_stray
      changed_lands h' same =
          let at : h'.id ≡ id = same ∙ own in
          let after : find (λ x. x.id == id) (put_household h' db).households ≡ some h' =
            ap
              (λ k.
                find (λ x. x.id == id)
                  (update_first (λ (x : Household). x.id == k) (λ _. h') db.households))
              at
            ∙ find-update_first (λ (x : Household). x.id == id) h h' db.households found
                ((nat_beq_iff h'.id id).1 at) in
          ground (arith, named, found, after)

      changed :
          (outcome : Outcome) (h' : Household)
          → h'.id ≡ h.id
          → credit_household now o e h ≡ h'
          → Branch now o e db (settle e outcome (ok h') db)
      unfolding settle put_household
      changed outcome h' same c = record {
        outcome = outcome;
        id = e.household_id;
        mid = put_household h' db;
        ends = refl;
        rows = refl;
        frame = refl;
        households =
            ap (λ k. update_first (λ (x : Household). x.id == k) (λ _. h') db.households)
              (same ∙ own)
            ∙ sym (credited h' c);
        lands = changed_lands h' same;
      }

      granted-Branch :
          (r : Result EntitlementError Household) (until : ℕ)
          → e.action ≡ grants
          → e.renews_at ≡ some until
          → grant now (grant_of o e h) h ≡ r
          → Branch now o e db (settle e granted r db)
      unfolding settle credit_household
      granted-Branch (ok h') until a t g =
          changed granted h' (id-grant now o e h h' g) (ground (arith, a, t, g))
      granted-Branch (err x) until a t g =
          unchanged refused e.household_id (credited_same (ground (arith, a, t, g))) here_lands

      settle-Branch : Branch now o e db (settle_household now o e h db)
      unfolding settle_household credit_household
      settle-Branch = elim (Action-cases e.action) [
        | inl a ↦
            let same : write_ledger e ignored e.household_id db ≡ settle_household now o e h db =
              ground (arith, a) in
            subst (Branch now o e db) same
              (unchanged ignored e.household_id (credited_same (ground (arith, a))) here_lands)
        | inr (inl a) ↦ elim (Option-cases e.renews_at) [
          | inl t ↦
              let same : write_ledger e refused e.household_id db ≡ settle_household now o e h db =
                ground (arith, a, t) in
              subst (Branch now o e db) same
                (unchanged refused e.household_id (credited_same (ground (arith, a, t))) here_lands)
          | inr (until, t) ↦
              let same : settle e granted (grant now (grant_of o e h) h) db
                  ≡ settle_household now o e h db =
                ground (arith, a, t) in
              subst (Branch now o e db) same
                (granted-Branch (grant now (grant_of o e h) h) until a t refl)
        ]
        | inr (inr a) ↦
            let h' = revoke (some (webhook_note e)) h in
            let same : settle e revoked (ok h') db ≡ settle_household now o e h db =
              ground (arith, a) in
            subst (Branch now o e db) same
              (changed revoked h' (id-revoke (some (webhook_note e)) h) (ground (arith, a)))
      ]

    -- Where no household is found, nothing is credited.
    stray-Branch :
        credit now o e db.households ≡ db.households
        → ((finish now o e db ≡ write_ledger e ignored e.household_id db)
            × (is_dangling e.household_id db.households ≡ is_stray e db.households))
          ⊎ ((finish now o e db ≡ write_ledger e orphan none db)
              × (is_dangling none db.households ≡ is_stray e db.households))
        → Branch now o e db (finish now o e db)
    stray-Branch none_credited (inl (i, lands)) =
        subst (Branch now o e db) (sym i) (unchanged ignored e.household_id none_credited lands)
    stray-Branch none_credited (inr (i, lands)) =
        subst (Branch now o e db) (sym i) (unchanged orphan none none_credited lands)

    -- The whole of `handle` behind the check for a duplicate.
    pub finish-Branch : Branch now o e db (finish now o e db)
    unfolding finish credit settle_household is_dangling is_stray
    finish-Branch = elim (Option-cases e.household_id) [
      | inl n ↦ stray-Branch (ground (arith, n)) (ground (arith, n))
      | inr (id, n) ↦ elim (Option-cases (find (λ h. h.id == id) db.households)) [
        | inl f ↦
            stray-Branch
              (ground (
                arith,
                n,
                update_first_missing (λ (x : Household). x.id == id) (credit_household now o e)
                    db.households f,
              ))
              (ground (arith, n, f))
        | inr (h, f) ↦
            let same : settle_household now o e h db ≡ finish now o e db = ground (arith, n, f) in
            subst (Branch now o e db) same (settle-Branch id h n f)
      ]
    ]

    -- One event that is new to the ledger credits its household and adds one row, its own.
    pub finish-Settled :
        already_recorded e db.billing_events ≡ false
        → is_stray e db.households ≡ false
        → Settled now o e db (finish now o e db)
    finish-Settled fresh lands =
        let b = finish-Branch in
        subst (Settled now o e db) (sym b.ends) (
          written-Settled now o e b.outcome b.id db b.mid fresh (b.lands ∙ lands) b.rows
            b.households)

    -- An event that is only recorded, on a household that is not there, ends in the error.
    pub finish_stray :
        already_recorded e db.billing_events ≡ false
        → is_stray e db.households ≡ true
        → finish now o e db ≡ err foreign_key
    finish_stray fresh stray =
        let b = finish-Branch in
        b.ends
        ∙ ground (
          arith,
          b.lands,
          b.rows,
          write_ledger_new e b.outcome b.id b.mid (ap (already_recorded e) b.rows ∙ fresh),
        )
