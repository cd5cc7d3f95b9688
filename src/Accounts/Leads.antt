-- ===== src/Accounts/Leads.antt =====
-- move_user_to_household of backend/app/services/accounts.py, on the rows of the tables.
use meals.Prelude.{
  ℕ, ◌≡◌, refl, Bool, true, false, none, some, List, [], ◌∷◌, arith, find, update_first, ◌==◌,
  nat_eq, nat_beq_iff, option_eq, Option-cases, inl, inr, find-holds, find-update_first_other,
}
use meals.Models.Users.{Household, User}
use meals.Accounts.{is_user, is_household}
use meals.Accounts.Members.{has_lead, led_in}

abbrev pub led_by : ℕ → ℕ → List Household → Bool
led_by k x hs = elim (find (is_household k) hs) [ none ↦ false | some h ↦ h.lead_user_id == some x ]

abbrev pub move : ℕ → ℕ → List User → List User
move x t us = update_first (is_user x) (λ u. record u { household_id = t }) us

-- The row that is moved is found where it was.
find-move :
    (x t : ℕ) (us : List User) (user : User)
    → find (is_user x) us ≡ some user
    → find (is_user x) (move x t us) ≡ some (record user { household_id = t })
unfolding find update_first
find-move x t [] user h = cc
find-move x t (u ∷ us) user h = ground (arith, find-move x t us user)

find-move_other :
    (x t l : ℕ) (us : List User)
    → (l == x) ≡ false
    → find (is_user l) (move x t us) ≡ find (is_user l) us
find-move_other x t l us h =
    find-update_first_other (is_user l) (is_user x) (λ u. record u { household_id = t }) us
      (λ _. refl) (λ u e. ground (arith, nat_beq_iff u.id x, nat_beq_iff u.id l, nat_beq_iff l x))

-- A move leaves alone the households that the one who moves does not lead.
pub led_in-move_other :
    (k x t : ℕ) (us : List User) (hs : List Household)
    → led_by k x hs ≡ false
    → led_in k us hs ≡ true
    → led_in k (move x t us) hs ≡ true
unfolding led_in has_lead
led_in-move_other k x t us hs other led = elim (Option-cases (find (is_household k) hs)) [
  | inl n ↦ ground (arith, n)
  | inr (h, n) ↦ elim (Option-cases h.lead_user_id) [
    | inl m ↦ ground (arith, n, m)
    | inr (l, m) ↦ ground (arith, n, m, find-move_other x t l us)
  ]
]

-- Who leads a household and moves into it is one of its members.
pub led_in-move_home :
    (k x : ℕ) (us : List User) (hs : List Household) (user : User)
    → find (is_user x) us ≡ some user
    → led_by k x hs ≡ true
    → led_in k (move x k us) hs ≡ true
unfolding led_in has_lead
led_in-move_home k x us hs user found home = elim (Option-cases (find (is_household k) hs)) [
  | inl n ↦ ground (arith, n)
  | inr (h, n) ↦ elim (Option-cases h.lead_user_id) [
    | inl m ↦ ground (arith, n, m)
    | inr (l, m) ↦ ground (
      arith,
      n,
      m,
      nat_beq_iff l x,
      find-move x k us user found,
      find-holds (is_household k) hs h n,
      nat_beq_iff h.id k,
      nat_beq_iff k h.id,
    )
  ]
]

-- Only members lead.
pub home_of_lead :
    (k x : ℕ) (us : List User) (hs : List Household) (user : User)
    → find (is_user x) us ≡ some user
    → led_by k x hs ≡ true
    → led_in k us hs ≡ true
    → user.household_id ≡ k
unfolding led_in has_lead
home_of_lead k x us hs user found leads led = elim (Option-cases (find (is_household k) hs)) [
  | inl n ↦ ground (arith, n)
  | inr (h, n) ↦ elim (Option-cases h.lead_user_id) [
    | inl m ↦ ground (arith, n, m)
    | inr (l, m) ↦ ground (
      arith,
      n,
      m,
      found,
      nat_beq_iff l x,
      find-holds (is_household k) hs h n,
      nat_beq_iff h.id k,
      nat_beq_iff user.household_id h.id,
    )
  ]
]
