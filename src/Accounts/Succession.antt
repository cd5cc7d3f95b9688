-- ===== src/Accounts/Succession.antt =====
-- The lead under delete_household_data and move_user_to_household of
-- backend/app/services/accounts.py.
use meals.Prelude.{
  ℕ, ◌≡◌, ◌⊎◌, refl, sym, subst, Bool, true, false, ◌&&◌, not, none, some, List, arith, keep, find,
  any, ◌==◌, nat_eq, nat_beq_iff, option_eq, Option-cases, Bool-cases, inl, inr, find-keep_other,
  find-update_first_other, any-keep_self, find_of_none, ok,
}
use meals.Models.{Db}
use meals.Models.Users.{Household, User}
use meals.Accounts.{
  is_user, is_household, is_member, next_lead, delete_household_data, set_household_id, is_led_by,
  move_user_to_household,
}
use meals.Accounts.Members.{distinct_ids, led_in, not_in, distinct_ids-keep, distinct_ids-move}
use meals.Accounts.Leads.{led_by, move, led_in-move_other, led_in-move_home, home_of_lead}
use meals.Accounts.Deleted.{forget, with_lead, led_in-forget}

-- Ids are unique, and the household with an id, if there is one, is led by one of its members.
pub record IsSound {Q : Type 0} (db : Db Q) : Type 0 where
  pub unique : distinct_ids db.users ≡ true
  pub led : (k : ℕ) → led_in k db.users db.households ≡ true

-- What is left of the households behind a delete of one of them.
abbrev left_households : ℕ → List User → List Household → List Household
left_households hh us hs =
    keep (λ h. not (h.id == hh))
      (forget (λ id. any (λ v. v.id == id && is_member hh v) us) (with_lead hh none hs))

led_in-without :
    (hh k : ℕ) (us : List User) (hs : List Household)
    → distinct_ids us ≡ true
    → ((k == hh) ≡ false → led_in k us hs ≡ true)
    → led_in k (keep (λ u. not (is_member hh u)) us) (left_households hh us hs) ≡ true
unfolding led_in
led_in-without hh k us hs d led = elim (Bool-cases (k == hh)) [
  | inl here ↦
      let same : k ≡ hh = (nat_beq_iff k hh).0 here in
      subst (λ j. led_in j (keep (λ u. not (is_member hh u)) us) (left_households hh us hs) ≡ true)
        (sym same)
        (ground (
          arith,
          find_of_none (is_household hh) (left_households hh us hs) (
              any-keep_self (λ h. h.id == hh)
                (forget (λ id. any (λ v. v.id == id && is_member hh v) us) (with_lead hh none hs))),
        ))
  | inr other ↦
      let far : find (is_household k) (with_lead hh none hs) ≡ find (is_household k) hs =
        find-update_first_other (is_household k) (is_household hh)
          (λ h. record h { lead_user_id = none }) hs (λ _. refl)
          (λ h e. ground (arith, nat_beq_iff h.id hh, nat_beq_iff h.id k, nat_beq_iff k hh)) in
      let before : led_in k us (with_lead hh none hs) ≡ true = ground (arith, far, led other) in
      let rest =
        led_in-forget k (is_member hh) us (with_lead hh none hs)
          (λ h l u n m o at_home.
            not_in hh l us u d o (ground (arith, nat_beq_iff u.household_id hh, nat_beq_iff k hh)))
          before in
      ground (
        arith,
        rest,
        find-keep_other (is_household k) (λ h. not (h.id == hh))
            (forget (λ id. any (λ v. v.id == id && is_member hh v) us) (with_lead hh none hs))
            (λ h e. ground (arith, nat_beq_iff h.id hh, nat_beq_iff h.id k, nat_beq_iff k hh)),
      )
]

-- A household that is not the user's own is not led by the user, or is the one moved into.
elsewhere :
    (user : User) (target : ℕ) (us : List User) (hs : List Household)
    → find (is_user user.id) us ≡ some user
    → ((k : ℕ) → (k == target) ≡ false → led_in k us hs ≡ true)
    → (k : ℕ) → (k == user.household_id) ≡ false
    → (led_by k user.id hs ≡ false) ⊎ (k ≡ target)
elsewhere user target us hs found far k other = elim (Bool-cases (k == target)) [
  | inl here ↦ inr ((nat_beq_iff k target).0 here)
  | inr away ↦ elim (Bool-cases (led_by k user.id hs)) [
    | inr not_his ↦ inl not_his
    | inl his ↦
        let home : user.household_id ≡ k =
          home_of_lead k user.id us hs user found his (far k away) in
        absurd (ground (arith, home, other, nat_beq_iff k user.household_id))
  ]
]

module _ {Q : Type 0} where
  -- The delete of a household keeps the others led.
  pub delete_household_data-IsSound :
      (hh : ℕ) (db : Db Q)
      → distinct_ids db.users ≡ true
      → ((k : ℕ) → (k == hh) ≡ false → led_in k db.users db.households ≡ true)
      → IsSound (delete_household_data hh db)
  unfolding delete_household_data
  delete_household_data-IsSound hh db d led = record {
    unique = distinct_ids-keep (λ u. not (is_member hh u)) db.users d;
    led = λ k. led_in-without hh k db.users db.households d (led k);
  }

  -- When every household but the one moved into is led by a member, and that one is too or is led
  -- by the user who moves, then a move that is not refused leaves them all led.
  pub move_user_to_household-IsSound :
      (user : User) (target : ℕ) (db db' : Db Q) (collected : Bool)
      → distinct_ids db.users ≡ true
      → find (is_user user.id) db.users ≡ some user
      → ((k : ℕ) → led_by k user.id db.households ≡ false → led_in k db.users db.households ≡ true)
      → ((k : ℕ) → (k == target) ≡ false → led_in k db.users db.households ≡ true)
      → move_user_to_household user target db ≡ ok (collected, db')
      → IsSound db'
  unfolding move_user_to_household is_led_by set_household_id
  move_user_to_household-IsSound user target db db' collected d found others far moved =
      let x = user.id in
      let origin = user.household_id in
      let us = db.users in
      let hs = db.households in
      let after : Db Q = set_household_id x target db in
      let d' = distinct_ids-move x target us d in
      let kept : (k : ℕ)
          → (led_by k x hs ≡ false) ⊎ (k ≡ target)
          → led_in k (move x target us) hs ≡ true =
        λ k why. elim (Bool-cases (led_by k x hs)) [
          | inr not_his ↦ led_in-move_other k x target us hs not_his (others k not_his)
          | inl his ↦ elim why [
            | inl not_his ↦ absurd (ground (arith, his, not_his))
            | inr here ↦
                subst (λ j. led_in k (move x j us) hs ≡ true) here
                  (led_in-move_home k x us hs user found his)
          ]
        ] in
      elim (Bool-cases (origin == target)) [
        | inl same ↦ ground (arith, same, moved)
        | inr apart ↦ elim (Option-cases (next_lead origin x db)) [
          | inl n ↦
              let gone : db' ≡ delete_household_data origin after =
                ground (arith, apart, n, moved) in
              subst IsSound (sym gone) (
                delete_household_data-IsSound origin after d'
                  (λ k other. kept k (elsewhere user target us hs found far k other)))
          | inr (v, n) ↦ elim (Bool-cases (is_led_by origin x db)) [
            | inl his ↦ ground (arith, apart, n, his, moved)
            | inr not_his ↦
                let moved' : db' ≡ after = ground (arith, apart, n, not_his, moved) in
                subst IsSound (sym moved') (record {
                  unique = d';
                  led = λ k. kept k (elim (Bool-cases (k == origin)) [
                    | inl here ↦ inl (
                        subst (λ j. led_by j x hs ≡ false) (sym ((nat_beq_iff k origin).0 here))
                          not_his)
                    | inr other ↦ elsewhere user target us hs found far k other
                  ]);
                })
          ]
        ]
      ]
