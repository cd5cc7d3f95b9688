-- ===== src/Accounts/Deleted.antt =====
-- The deletes of backend/app/services/accounts.py, on the rows of the tables.
use meals.Prelude.{
  ℕ, ◌≡◌, refl, Bool, true, false, ◌&&◌, not, Option, none, some, List, [], ◌∷◌, arith, map, keep,
  find, any, update_first, ◌==◌, nat_eq, nat_beq_iff, option_eq, Option-cases, inl, inr, find-holds,
  find-keep, find-map,
}
use meals.Models.Users.{Household, User}
use meals.Accounts.{is_user, is_household}
use meals.Accounts.Tables.{set_null}
use meals.Accounts.Members.{has_lead, led_in}

-- The households behind a delete of users, and the rows behind a delete of a household.
abbrev pub forget : (ℕ → Bool) → List Household → List Household
forget gone hs =
    map (λ (h : Household). record h { lead_user_id = set_null gone h.lead_user_id }) hs

abbrev pub with_lead : ℕ → Option ℕ → List Household → List Household
with_lead hh lead hs = update_first (is_household hh) (λ h. record h { lead_user_id = lead }) hs

find-forget :
    (k : ℕ) (gone : ℕ → Bool) (hs : List Household) (h : Household)
    → find (is_household k) hs ≡ some h
    → find (is_household k) (forget gone hs)
      ≡ some (record h { lead_user_id = set_null gone h.lead_user_id })
find-forget k gone hs h n = ground (
  arith,
  n,
  find-map (is_household k)
      (λ (h : Household). record h { lead_user_id = set_null gone h.lead_user_id }) hs (λ _. refl),
)

find-forget_missing :
    (k : ℕ) (gone : ℕ → Bool) (hs : List Household)
    → find (is_household k) hs ≡ none
    → find (is_household k) (forget gone hs) ≡ none
find-forget_missing k gone hs n = ground (
  arith,
  n,
  find-map (is_household k)
      (λ (h : Household). record h { lead_user_id = set_null gone h.lead_user_id }) hs (λ _. refl),
)

not_deleted :
    (l : ℕ) (p : User → Bool) (us : List User) (u : User)
    → find (is_user l) us ≡ some u
    → any (λ v. v.id == l && p v) us ≡ false
    → p u ≡ false
unfolding find any
not_deleted l p [] u h k = cc
not_deleted l p (v ∷ us) u h k = ground (arith, not_deleted l p us u)

-- A lead who stays still leads.
pub led_in-forget :
    (k : ℕ) (p : User → Bool) (us : List User) (hs : List Household)
    → ((h : Household) (l : ℕ) (u : User)
        → find (is_household k) hs ≡ some h
        → h.lead_user_id ≡ some l
        → find (is_user l) us ≡ some u
        → u.household_id ≡ k
        → any (λ v. v.id == l && p v) us ≡ false)
    → led_in k us hs ≡ true
    → led_in k (keep (λ u. not (p u)) us) (forget (λ id. any (λ v. v.id == id && p v) us) hs) ≡ true
unfolding led_in has_lead
led_in-forget k p us hs stays led =
    let gone : ℕ → Bool = λ id. any (λ v. v.id == id && p v) us in
    elim (Option-cases (find (is_household k) hs)) [
      | inl n ↦ ground (arith, find-forget_missing k gone hs n)
      | inr (h, n) ↦ elim (Option-cases h.lead_user_id) [
        | inl m ↦ ground (arith, n, m)
        | inr (l, m) ↦ elim (Option-cases (find (is_user l) us)) [
          | inl o ↦ ground (arith, n, m, o)
          | inr (u, o) ↦
              let at_home : u.household_id ≡ k = ground (
                arith,
                n,
                m,
                o,
                nat_beq_iff u.household_id h.id,
                find-holds (is_household k) hs h n,
                nat_beq_iff h.id k,
              ) in
              let kept : any (λ v. v.id == l && p v) us ≡ false = stays h l u n m o at_home in
              ground (
                arith,
                find-forget k gone hs h n,
                m,
                o,
                kept,
                find-keep (is_user l) (λ u. not (p u)) us u o,
                not_deleted l p us u o kept,
              )
        ]
      ]
    ]
