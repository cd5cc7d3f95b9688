-- ===== src/Auth/Kept/Changes.antt =====
-- update_household of backend/app/routers/auth.py, and the lead.
use meals.Prelude.{
  ℕ, ◌≡◌, refl, sym, subst, true, false, Option, none, some, List, [], ◌∷◌, arith, find,
  update_first, ◌==◌, nat_eq, nat_beq_iff, option_eq, Option-cases, Bool-cases, inl, inr,
  find-holds, find-update_first, ok, >>=-eq-ok,
}
use meals.Models.{Db}
use meals.Models.Users.{Household, User}
use meals.Accounts.{is_user, is_household}
use meals.Accounts.Succession.{IsSound}
use meals.Accounts.Members.{led_in, has_lead}
use meals.Auth.Service.{Env, Service, Answer}
use meals.Auth.Households.{HouseholdUpdateIn, require_lead, new_lead, update_household, rename}

find-written_other :
    (k : ℕ) (h changed : Household) (hs : List Household)
    → changed.id ≡ h.id
    → (k == h.id) ≡ false
    → find (is_household k) (update_first (is_household h.id) (λ _. changed) hs)
      ≡ find (is_household k) hs
unfolding find update_first
find-written_other k h changed [] same other = refl
find-written_other k h changed (x ∷ xs) same other = ground (
  arith,
  find-written_other k h changed xs same other,
  nat_beq_iff x.id h.id,
  nat_beq_iff x.id k,
  nat_beq_iff k h.id,
  nat_beq_iff changed.id k,
)

-- A household is written back with a member as its lead.
IsSound-written :
    {Q : Type 0} (db : Db Q) (h changed : Household)
    → find (is_household h.id) db.households ≡ some h
    → changed.id ≡ h.id
    → has_lead db.users changed ≡ true
    → IsSound db
    → IsSound
        (record db { households = update_first (is_household h.id) (λ _. changed) db.households })
unfolding led_in
IsSound-written db h changed found same led sound = record {
  unique = sound.unique;
  led = λ k. elim (Bool-cases (k == h.id)) [
    | inl here ↦
        subst
          (λ j.
            led_in j db.users (update_first (is_household h.id) (λ _. changed) db.households)
            ≡ true)
          (sym ((nat_beq_iff k h.id).0 here))
          (ground (
            arith,
            led,
            find-update_first (is_household h.id) h changed db.households found
                ((nat_beq_iff changed.id h.id).1 same),
          ))
    | inr other ↦
        ground (arith, sound.led k, find-written_other k h changed db.households same other)
  ];
}

module _ {Q : Type 0} where
  require_lead-eq-ok :
      (user : User) (db : Db Q) (h : Household)
      → require_lead user db ≡ ok h
      → find (is_household user.household_id) db.households ≡ some h
  unfolding require_lead
  require_lead-eq-ok user db h e =
      elim (Option-cases (find (is_household user.household_id) db.households)) [
        | inl n ↦ ground (arith, n, e)
        | inr (g, n) ↦ ground (arith, n, e)
      ]

  new_lead-eq-ok :
      (h changed : Household) (named : Option ℕ) (db : Db Q)
      → has_lead db.users h ≡ true
      → new_lead h named db ≡ ok changed.lead_user_id
      → changed.id ≡ h.id
      → has_lead db.users changed ≡ true
  unfolding new_lead has_lead
  new_lead-eq-ok h changed none db led e same = ground (arith, e, led)
  new_lead-eq-ok h changed (some lead) db led e same =
      elim (Option-cases (find (is_user lead) db.users)) [
        | inl n ↦ ground (arith, e, led, n)
        | inr (u, n) ↦
            let id : u.id ≡ lead =
              (nat_beq_iff u.id lead).0 (find-holds (is_user lead) db.users u n) in
            let back : find (is_user u.id) db.users ≡ some u =
              subst (λ i. find (is_user i) db.users ≡ some u) (sym id) n in
            elim (Bool-cases (h.lead_user_id == some lead)) [
              | inl kept ↦ ground (arith, e, led, n, kept)
              | inr other ↦ ground (arith, e, n, other, back)
            ]
      ]

  pub update_household-IsSound :
      (env : Env) (user : User) (payload : HouseholdUpdateIn) (st st' : Service Q) (a : Answer)
      → update_household env user payload st ≡ ok (a, st')
      → IsSound st.db
      → IsSound st'.db
  unfolding update_household led_in
  update_household-IsSound env user payload st st' a e sound =
      let (h, r, e₁) = >>=-eq-ok (require_lead user st.db) _ e in
      let (lead, l, e₂) = >>=-eq-ok (new_lead h payload.lead_user_id st.db) _ e₁ in
      let changed : Household = record h {
        lead_user_id = lead;
        name = rename env payload.name h.name;
      } in
      let there = require_lead-eq-ok user st.db h r in
      let id : h.id ≡ user.household_id =
        (nat_beq_iff h.id user.household_id).0
          (find-holds (is_household user.household_id) st.db.households h there) in
      let ends : st'.db ≡ record st.db {
        households = update_first (is_household h.id) (λ _. changed) st.db.households;
      } =
        ground (arith, e₂) in
      let was_led : has_lead st.db.users h ≡ true =
        ground (arith, sound.led user.household_id, there) in
      subst IsSound (sym ends) (
        IsSound-written st.db h changed
          (subst (λ i. find (is_household i) st.db.households ≡ some h) (sym id) there) refl
          (new_lead-eq-ok h changed payload.lead_user_id st.db was_led l refl) sound)
