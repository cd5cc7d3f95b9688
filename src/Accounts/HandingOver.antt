-- ===== src/Accounts/HandingOver.antt =====
-- The lead under delete_user of backend/app/services/accounts.py.
use meals.Prelude.{
  ℕ, ◌≡◌, refl, sym, subst, true, false, ◌&&◌, not, Option, some, List, [], ◌∷◌, arith, keep, find,
  any, update_first, leb, ◌==◌, nat_eq, nat_beq_iff, option_eq, Option-cases, Bool-cases, inl, inr,
  find-holds, find-update_first_other, update_first_missing,
}
use meals.Models.{Db}
use meals.Models.Users.{Household, User}
use meals.Accounts.{
  is_user, is_household, is_other_member, household_user_count, next_lead, set_lead,
  delete_household_data, is_led_by, hand_over, delete_user,
}
use meals.Accounts.Tables.{delete_users}
use meals.Accounts.Members.{
  distinct_ids, has_lead, led_in, find-is_user_self, distinct_ids-keep, alone,
}
use meals.Accounts.Leads.{led_by, home_of_lead}
use meals.Accounts.Deleted.{forget, with_lead, led_in-forget}
use meals.Accounts.Succession.{IsSound, delete_household_data-IsSound}

-- The rows of one id do not have another.
another_id :
    (l x : ℕ) (us : List User) → (l == x) ≡ false → any (λ v. v.id == l && is_user x v) us ≡ false
unfolding any
another_id l x [] h = refl
another_id l x (v ∷ us) h =
    ground (arith, another_id l x us h, nat_beq_iff v.id l, nat_beq_iff v.id x, nat_beq_iff l x)

-- A user who leads nothing is deleted, and every household stays led.
led_in-delete_user :
    (k x : ℕ) (us : List User) (hs : List Household)
    → led_by k x hs ≡ false
    → led_in k us hs ≡ true
    → led_in k
        (keep (λ u. not (is_user x u)) us)
        (forget (λ id. any (λ v. v.id == id && is_user x v) us) hs)
      ≡ true
led_in-delete_user k x us hs not_his led =
    led_in-forget k (is_user x) us hs
      (λ h l u n m o at_home. another_id l x us (ground (arith, n, m, not_his))) led

-- The household that is handed over, found again with its new lead.
find-with_lead :
    (hh : ℕ) (lead : Option ℕ) (hs : List Household) (h : Household)
    → find (is_household hh) hs ≡ some h
    → find (is_household hh) (with_lead hh lead hs) ≡ some (record h { lead_user_id = lead })
unfolding find update_first
find-with_lead hh lead [] h n = cc
find-with_lead hh lead (g ∷ hs) h n = ground (arith, find-with_lead hh lead hs h)

find-with_lead_other :
    (hh k : ℕ) (lead : Option ℕ) (hs : List Household)
    → (k == hh) ≡ false
    → find (is_household k) (with_lead hh lead hs) ≡ find (is_household k) hs
find-with_lead_other hh k lead hs other =
    find-update_first_other (is_household k) (is_household hh)
      (λ h. record h { lead_user_id = lead }) hs (λ _. refl)
      (λ h e. ground (arith, nat_beq_iff h.id hh, nat_beq_iff h.id k, nat_beq_iff k hh))

-- A household that is handed to one of its other members is led, and not by who handed it over.
led_in-with_lead :
    (hh x : ℕ) (us : List User) (hs : List Household) (v : User)
    → distinct_ids us ≡ true
    → find (is_other_member hh x) us ≡ some v
    → (led_in hh us (with_lead hh (some v.id) hs) ≡ true)
      × (led_by hh x (with_lead hh (some v.id) hs) ≡ false)
unfolding led_in has_lead
led_in-with_lead hh x us hs v d n = elim (Option-cases (find (is_household hh) hs)) [
  | inl m ↦ ground (
    arith,
    m,
    update_first_missing (is_household hh) (λ h. record h { lead_user_id = some v.id }) hs m,
  )
  | inr (h, m) ↦ ground (
    arith,
    find-with_lead hh (some v.id) hs h m,
    find-is_user_self (is_other_member hh x) us v d n,
    find-holds (is_other_member hh x) us v n,
    find-holds (is_household hh) hs h m,
    nat_beq_iff h.id hh,
    nat_beq_iff v.household_id hh,
    nat_beq_iff v.household_id h.id,
  )
]

module _ {Q : Type 0} where
  -- When others stay, who hands over leads nothing any more, and every household is still led.
  behind-hand_over :
      (user : User) (db : Db Q)
      → IsSound db
      → find (is_user user.id) db.users ≡ some user
      → leb (household_user_count user.household_id db) 1 ≡ false
      → (k : ℕ)
      → (led_in k db.users (hand_over user db).households ≡ true)
        × (led_by k user.id (hand_over user db).households ≡ false)
  unfolding hand_over is_led_by set_lead household_user_count next_lead led_in
  behind-hand_over user db sound found others k =
      let x = user.id in
      let o = user.household_id in
      let us = db.users in
      let hs = db.households in
      let leads_nothing : (k == o) ≡ false → led_by k x hs ≡ false = λ other.
        elim (Bool-cases (led_by k x hs)) [
          | inr not_his ↦ not_his
          | inl his ↦
              let home = home_of_lead k x us hs user found his (sound.led k) in
              absurd (ground (arith, home, other, nat_beq_iff k o))
        ] in
      elim (Bool-cases (led_by o x hs)) [
        | inr not_his ↦ elim (Bool-cases (k == o)) [
          | inl here ↦
              let same : k ≡ o = (nat_beq_iff k o).0 here in
              let not_here : led_by k x hs ≡ false =
                subst (λ j. led_by j x hs ≡ false) (sym same) not_his in
              ground (arith, not_his, not_here, sound.led k)
          | inr other ↦ ground (arith, not_his, leads_nothing other, sound.led k)
        ]
        | inl his ↦ elim (Option-cases (find (is_other_member o x) us)) [
          | inl n ↦ absurd (ground (arith, alone o x us sound.unique n, others))
          | inr (v, n) ↦
              let handed : (hand_over user db).households ≡ with_lead o (some v.id) hs =
                ground (arith, his, n) in
              subst (λ hs₁. (led_in k us hs₁ ≡ true) × (led_by k x hs₁ ≡ false)) (sym handed)
                (elim (Bool-cases (k == o)) [
                  | inl here ↦
                      subst
                        (λ j.
                          (led_in j us (with_lead o (some v.id) hs) ≡ true)
                          × (led_by j x (with_lead o (some v.id) hs) ≡ false))
                        (sym ((nat_beq_iff k o).0 here))
                        (led_in-with_lead o x us hs v sound.unique n)
                  | inr other ↦ ground (
                    arith,
                    find-with_lead_other o k (some v.id) hs other,
                    leads_nothing other,
                    sound.led k,
                  )
                ])
        ]
      ]

  hand_over-users : (user : User) (db : Db Q) → (hand_over user db).users ≡ db.users
  unfolding hand_over set_lead
  hand_over-users user db = ground arith

  -- When the database is sound, then so it is behind the deletion of an account: the last member's
  -- household goes, and a lead among others leaves the lead to one of them.
  pub delete_user-IsSound :
      (user : User) (db : Db Q)
      → IsSound db
      → find (is_user user.id) db.users ≡ some user
      → IsSound (delete_user user db).1
  unfolding delete_user delete_users
  delete_user-IsSound user db sound found =
      elim (Bool-cases (leb (household_user_count user.household_id db) 1)) [
        | inl last ↦
            let all_gone : (delete_user user db).1 ≡ delete_household_data user.household_id db =
              ground (arith, last) in
            subst IsSound (sym all_gone)
              (delete_household_data-IsSound user.household_id db sound.unique (λ k _. sound.led k))
        | inr others ↦
            let x = user.id in
            let hs₁ = (hand_over user db).households in
            let gone : (delete_user user db).1 ≡ delete_users (is_user x) (hand_over user db) =
              ground (arith, others) in
            let same = hand_over-users user db in
            subst IsSound (sym gone) (record {
              unique =
                  subst (λ us. distinct_ids (keep (λ u. not (is_user x u)) us) ≡ true) (sym same)
                    (distinct_ids-keep (λ u. not (is_user x u)) db.users sound.unique);
              led = λ k.
                  let (led, not_his) = behind-hand_over user db sound found others k in
                  subst
                    (λ us.
                      led_in k (keep (λ u. not (is_user x u)) us)
                        (forget (λ id. any (λ v. v.id == id && is_user x v) us) hs₁)
                      ≡ true)
                    (sym same) (led_in-delete_user k x db.users hs₁ not_his led);
            })
      ]
