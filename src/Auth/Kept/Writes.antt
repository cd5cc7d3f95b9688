-- ===== src/Auth/Kept/Writes.antt =====
-- The writes that the requests of backend/app/routers/auth.py share, and the lead of a household.
use meals.Prelude.{
  ℕ, ◌≡◌, refl, ◌∙◌, ap, sym, subst, Bool, true, false, Option, none, some, List, [], ◌∷◌, ◌++◌,
  arith, find, any, update_first, ◌==◌, nat_eq, nat_beq_iff, option_eq, Option-cases, inl, inr,
  any-update_first, find-append, find_of_none,
}
use meals.Models.{Db}
use meals.Models.Users.{Household, User}
use meals.Accounts.{is_user, is_household}
use meals.Accounts.Members.{distinct_ids, has_lead, led_in, distinct_ids-append}
use meals.Accounts.Leads.{led_by}
use meals.Accounts.Succession.{IsSound}

pub IsSound-same :
    {Q : Type 0} (db db' : Db Q)
    → db'.users ≡ db.users
    → db'.households ≡ db.households
    → IsSound db
    → IsSound db'
IsSound-same db db' us hs sound = record {
  unique = subst (λ us. distinct_ids us ≡ true) (sym us) sound.unique;
  led = λ k. ap (λ us. led_in k us db'.households) us ∙ ap (led_in k db.users) hs ∙ sound.led k;
}

pub find-append_some :
    {A : Type 0} (p : A → Bool) (xs ys : List A) (a : A)
    → find p xs ≡ some a
    → find p (xs ++ ys) ≡ some a
unfolding find
find-append_some p [] ys a h = cc
find-append_some p (x ∷ xs) ys a h = ground (arith, find-append_some p xs ys a)

-- A change of users that keeps their ids and households is not seen.
distinct_ids-change :
    (q : User → Bool) (f : User → User) (us : List User)
    → ((u : User) → (f u).id ≡ u.id)
    → distinct_ids us ≡ true
    → distinct_ids (update_first q f us) ≡ true
unfolding distinct_ids update_first
distinct_ids-change q f [] h d = refl
distinct_ids-change q f (u ∷ us) h d = ground (
  arith,
  h u,
  any-update_first (is_user u.id) q f us (λ v. ap (λ i. i == u.id) (h v)),
  distinct_ids-change q f us h,
)

household_at : ℕ → List User → Option ℕ
unfolding find
household_at l us = elim (find (is_user l) us) [ none ↦ none | some u ↦ some u.household_id ]

household_at-change :
    (l : ℕ) (q : User → Bool) (f : User → User) (us : List User)
    → ((u : User) → (f u).id ≡ u.id)
    → ((u : User) → (f u).household_id ≡ u.household_id)
    → household_at l (update_first q f us) ≡ household_at l us
unfolding household_at update_first find
household_at-change l q f [] h k = refl
household_at-change l q f (u ∷ us) h k = ground (arith, h u, k u, household_at-change l q f us h k)

has_lead-household_at :
    (us vs : List User) (h : Household)
    → ((l : ℕ) → household_at l vs ≡ household_at l us)
    → has_lead vs h ≡ has_lead us h
unfolding household_at has_lead
has_lead-household_at us vs h same = elim (Option-cases h.lead_user_id) [
  | inl n ↦ ground (arith, n)
  | inr (l, n) ↦ elim (Option-cases (find (is_user l) us)) [
    | inl m ↦ ground (arith, n, m, same l)
    | inr (u, m) ↦ ground (arith, n, m, same l)
  ]
]

pub IsSound-change :
    {Q : Type 0} (db : Db Q) (q : User → Bool) (f : User → User)
    → ((u : User) → (f u).id ≡ u.id)
    → ((u : User) → (f u).household_id ≡ u.household_id)
    → IsSound db
    → IsSound (record db { users = update_first q f db.users })
unfolding led_in
IsSound-change db q f h k sound = record {
  unique = distinct_ids-change q f db.users h sound.unique;
  led = λ j. elim (Option-cases (find (is_household j) db.households)) [
    | inl n ↦ ground (arith, n)
    | inr (hh, n) ↦ ground (
      arith,
      n,
      sound.led j,
      has_lead-household_at db.users (update_first q f db.users) hh
          (λ l. household_at-change l q f db.users h k),
    )
  ];
}

-- A user with a new id joins a household.
has_lead-append :
    (us : List User) (v : User) (h : Household)
    → has_lead us h ≡ true
    → has_lead (us ++ (v ∷ [])) h ≡ true
unfolding has_lead
has_lead-append us v h led = elim (Option-cases h.lead_user_id) [
  | inl n ↦ ground (arith, n)
  | inr (l, n) ↦ elim (Option-cases (find (is_user l) us)) [
    | inl m ↦ ground (arith, n, m)
    | inr (u, m) ↦ ground (arith, n, m, find-append_some (is_user l) us (v ∷ []) u m)
  ]
]

led_in-append :
    (k : ℕ) (us : List User) (v : User) (hs : List Household)
    → led_in k us hs ≡ true
    → led_in k (us ++ (v ∷ [])) hs ≡ true
unfolding led_in
led_in-append k us v hs led = elim (Option-cases (find (is_household k) hs)) [
  | inl n ↦ ground (arith, n)
  | inr (h, n) ↦ ground (arith, n, has_lead-append us v h)
]

pub IsSound-joined :
    {Q : Type 0} (db : Db Q) (v : User)
    → any (is_user v.id) db.users ≡ false
    → IsSound db
    → IsSound (record db { users = db.users ++ (v ∷ []) })
IsSound-joined db v fresh sound = record {
  unique = distinct_ids-append db.users v sound.unique fresh;
  led = λ k. led_in-append k db.users v db.households (sound.led k);
}

-- A household is added for its lead, who is not in it yet.
pub led_in-home :
    (k : ℕ) (us : List User) (hs : List Household) (home : Household)
    → led_in k us hs ≡ true
    → (home.id == k) ≡ false
    → led_in k us (hs ++ (home ∷ [])) ≡ true
unfolding led_in find
led_in-home k us hs home led other = elim (Option-cases (find (is_household k) hs)) [
  | inl n ↦ ground (arith, find-append (is_household k) hs (home ∷ []) n)
  | inr (h, n) ↦ ground (arith, n, find-append_some (is_household k) hs (home ∷ []) h n)
]

pub led_in-home_of :
    (k x : ℕ) (us : List User) (hs : List Household) (home : Household)
    → led_in k us hs ≡ true
    → home.lead_user_id ≡ some x
    → led_by k x (hs ++ (home ∷ [])) ≡ false
    → led_in k us (hs ++ (home ∷ [])) ≡ true
unfolding led_in find
led_in-home_of k x us hs home led his not_his = elim (Option-cases (find (is_household k) hs)) [
  | inl n ↦ ground (arith, n, his, nat_beq_iff x x, find-append (is_household k) hs (home ∷ []) n)
  | inr (h, n) ↦ ground (arith, n, find-append_some (is_household k) hs (home ∷ []) h n)
]

-- A household is founded by a new user.
led_in-founded :
    (k : ℕ) (us : List User) (v : User) (hs : List Household) (home : Household)
    → any (is_user v.id) us ≡ false
    → home.lead_user_id ≡ some v.id
    → v.household_id ≡ home.id
    → led_in k (us ++ (v ∷ [])) hs ≡ true
    → led_in k (us ++ (v ∷ [])) (hs ++ (home ∷ [])) ≡ true
unfolding led_in has_lead find
led_in-founded k us v hs home fresh his here led = elim (Option-cases (find (is_household k) hs)) [
  | inl n ↦ ground (
    arith,
    find-append (is_household k) hs (home ∷ []) n,
    his,
    find-append (is_user v.id) us (v ∷ []) (find_of_none (is_user v.id) us fresh),
    nat_beq_iff v.id v.id,
    nat_beq_iff v.household_id home.id,
  )
  | inr (h, n) ↦ ground (arith, n, find-append_some (is_household k) hs (home ∷ []) h n)
]

pub IsSound-founded :
    {Q : Type 0} (db : Db Q) (v : User) (home : Household)
    → any (is_user v.id) db.users ≡ false
    → home.lead_user_id ≡ some v.id
    → v.household_id ≡ home.id
    → IsSound db
    → IsSound
        (record db { users = db.users ++ (v ∷ []); households = db.households ++ (home ∷ []) })
IsSound-founded db v home fresh his here sound = record {
  unique = distinct_ids-append db.users v sound.unique fresh;
  led = λ k.
      led_in-founded k db.users v db.households home fresh his here
        (led_in-append k db.users v db.households (sound.led k));
}
