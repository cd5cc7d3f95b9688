-- ===== src/Accounts/Members.antt =====
-- Who is in a household and who leads it, on the tables `users` and `households`.
use meals.Prelude.{
  ℕ, ◌≡◌, refl, ◌≤◌, Bool, true, false, ◌&&◌, not, none, some, List, [], ◌∷◌, ◌++◌, arith, length,
  keep, find, any, update_first, ◌==◌, nat_eq, nat_beq_iff, option_eq, any-keep_le,
  any-update_first, any-append, any_of_find,
}
use meals.Models.Users.{Household, User}
use meals.Accounts.{is_user, is_household, is_member, is_other_member}

-- No two users have one id, as the primary key demands.
unfoldable pub distinct_ids : List User → Bool
unfolding any
distinct_ids [] = true
distinct_ids (u ∷ us) = not (any (is_user u.id) us) && distinct_ids us

-- Whether the lead of a household is one of its members.
unfoldable pub has_lead : List User → Household → Bool
unfolding find
has_lead us h = elim h.lead_user_id [
  | none ↦ false
  | some lead ↦ elim (find (is_user lead) us) [ none ↦ false | some u ↦ u.household_id == h.id ]
]

-- Whether the household with an id, if there is one, is led by one of its members.
unfoldable pub led_in : ℕ → List User → List Household → Bool
unfolding has_lead find
led_in k us hs = elim (find (is_household k) hs) [ none ↦ true | some h ↦ has_lead us h ]

pub distinct_ids-keep :
    (p : User → Bool) (us : List User) → distinct_ids us ≡ true → distinct_ids (keep p us) ≡ true
unfolding distinct_ids keep
distinct_ids-keep p [] h = refl
distinct_ids-keep p (u ∷ us) h =
    ground (arith, any-keep_le (is_user u.id) p us, distinct_ids-keep p us)

pub distinct_ids-move :
    (x t : ℕ) (us : List User)
    → distinct_ids us ≡ true
    → distinct_ids (update_first (is_user x) (λ u. record u { household_id = t }) us) ≡ true
unfolding distinct_ids update_first
distinct_ids-move x t [] h = refl
distinct_ids-move x t (u ∷ us) h = ground (
  arith,
  any-update_first (is_user u.id) (is_user x) (λ u. record u { household_id = t }) us (λ _. refl),
  distinct_ids-move x t us,
)

pub distinct_ids-append :
    (us : List User) (v : User)
    → distinct_ids us ≡ true
    → any (is_user v.id) us ≡ false
    → distinct_ids (us ++ (v ∷ [])) ≡ true
unfolding distinct_ids any
distinct_ids-append [] v h fresh = ground arith
distinct_ids-append (u ∷ us) v h fresh =
    ground (arith, any-append (is_user u.id) us (v ∷ []), distinct_ids-append us v)

-- A user that some search finds is the one with its id.
pub find-is_user_self :
    (p : User → Bool) (us : List User) (u : User)
    → distinct_ids us ≡ true
    → find p us ≡ some u
    → find (is_user u.id) us ≡ some u
unfolding distinct_ids find any
find-is_user_self p [] u d h = cc
find-is_user_self p (v ∷ us) u d h =
    ground (arith, find-is_user_self p us u, any_of_find (is_user u.id) us u, nat_beq_iff v.id u.id)

no_row :
    (hh x : ℕ) (us : List User)
    → any (is_user x) us ≡ false
    → any (λ v. v.id == x && is_member hh v) us ≡ false
unfolding any
no_row hh x [] h = refl
no_row hh x (v ∷ us) h = ground (arith, no_row hh x us)

-- No other row has the id of a user who is not in a household.
pub not_in :
    (hh x : ℕ) (us : List User) (u : User)
    → distinct_ids us ≡ true
    → find (is_user x) us ≡ some u
    → is_member hh u ≡ false
    → any (λ v. v.id == x && is_member hh v) us ≡ false
unfolding distinct_ids find any
not_in hh x [] u d h k = refl
not_in hh x (v ∷ us) u d h k = ground (arith, not_in hh x us u, no_row hh x us, nat_beq_iff v.id x)

nobody :
    (hh x : ℕ) (us : List User)
    → any (is_user x) us ≡ false
    → find (is_other_member hh x) us ≡ none
    → length (keep (is_member hh) us) ≡ 0
unfolding any find keep
nobody hh x [] d h = refl
nobody hh x (u ∷ us) d h = ground (arith, nobody hh x us)

-- A household without another member than one user has one member at most.
pub alone :
    (hh x : ℕ) (us : List User)
    → distinct_ids us ≡ true
    → find (is_other_member hh x) us ≡ none
    → length (keep (is_member hh) us) ≤ 1
unfolding distinct_ids find keep
alone hh x [] d h = omega arith
alone hh x (u ∷ us) d h = ground (arith, alone hh x us, nobody hh x us, nat_beq_iff u.id x)
