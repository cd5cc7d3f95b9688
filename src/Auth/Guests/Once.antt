-- ===== src/Auth/Guests/Once.antt =====
-- _redeem_invite of backend/app/routers/auth.py, for a code that was used.
use meals.Prelude.{
  ℕ, ◌≡◌, refl, ◌∙◌, ap, sym, subst, String, Bool, true, false, ◌&&◌, not, none, some, List, [],
  ◌∷◌, arith, keep, find, update_first, map, ◌==◌, nat_eq, string_eq, nat_beq_iff, Option-cases,
  Bool-cases, inl, inr, find-holds, any, find-keep, find-map, ok, err,
}
use meals.Models.{Db}
use meals.Models.Users.{User, HouseholdInvite}
use meals.Entitlements.{is_none}
use meals.Accounts.{
  is_member, move_user_to_household, next_lead, set_household_id, delete_household_data,
}
use meals.Accounts.Tables.{set_null}
use meals.Auth.Service.{Env, bad_invite}
use meals.Auth.Security.{hash_short_code}
use meals.Auth.Guests.{find_invite, accept_invite}

abbrev pub has_hash : String → HouseholdInvite → Bool
has_hash hash i = i.code_hash == hash

-- The first invitation with a hash has been redeemed.
unfoldable pub is_spent : String → List HouseholdInvite → Bool
unfolding find
is_spent hash is = elim (find (λ i. i.code_hash == hash) is) [
  | none ↦ true
  | some i ↦ not (is_none i.accepted_at)
]

find-accept :
    (hash : String) (now who : ℕ) (is : List HouseholdInvite) (i : HouseholdInvite)
    → find (has_hash hash) is ≡ some i
    → find (λ j. j.id == i.id) is ≡ some i
    → find (has_hash hash) (
        update_first
          (λ j. j.id == i.id)
          (λ j. record j { accepted_at = some now; accepted_by_user_id = some who })
          is)
      ≡ some (record i { accepted_at = some now; accepted_by_user_id = some who })
unfolding find update_first
find-accept hash now who [] i h k = cc
find-accept hash now who (x ∷ xs) i h k =
    let holds = find-holds (has_hash hash) (x ∷ xs) i h in
    elim (Bool-cases (x.id == i.id)) [
      | inl same ↦
          let here : x ≡ i = ground (arith, k, same) in
          let hashed : has_hash hash x ≡ true = ap (has_hash hash) here ∙ holds in
          ground (arith, same, hashed, here)
      | inr other ↦ ground (arith, other, h, k, find-accept hash now who xs i)
    ]

module _ {Q : Type 0} where
  pub find_invite-eq-ok :
      (env : Env) (code : String) (db : Db Q) (invite : HouseholdInvite)
      → find_invite env code db ≡ ok invite
      → find (has_hash (hash_short_code env.secrets code)) db.household_invites ≡ some invite
  unfolding find_invite
  find_invite-eq-ok env code db invite h =
      elim (Option-cases
        (find (has_hash (hash_short_code env.secrets code)) db.household_invites)) [
          | inl n ↦ ground (arith, n, h)
          | inr (i, n) ↦ ground (arith, n, h)
        ]

  pub find_invite_spent :
      (env : Env) (code : String) (db : Db Q)
      → is_spent (hash_short_code env.secrets code) db.household_invites ≡ true
      → find_invite env code db ≡ err bad_invite
  unfolding find_invite is_spent
  find_invite_spent env code db h =
      elim (Option-cases
        (find (has_hash (hash_short_code env.secrets code)) db.household_invites)) [
          | inl n ↦ ground (arith, n, h)
          | inr (i, n) ↦ ground (arith, n, h)
        ]

  -- A redeemed invitation is redeemed behind the deletion of another household.
  is_spent-delete_household_data :
      (hash : String) (hh : ℕ) (db : Db Q) (i : HouseholdInvite)
      → find (has_hash hash) db.household_invites ≡ some i
      → is_none i.accepted_at ≡ false
      → (i.household_id == hh) ≡ false
      → is_spent hash (delete_household_data hh db).household_invites ≡ true
  unfolding delete_household_data is_spent
  is_spent-delete_household_data hash hh db i found spent other =
      let q : HouseholdInvite → Bool = λ j. not (j.household_id == hh) in
      let gone : ℕ → Bool = λ id. any (λ u. u.id == id && is_member hh u) db.users in
      let f : HouseholdInvite → HouseholdInvite = λ j. record j {
        created_by_user_id = set_null gone j.created_by_user_id;
        accepted_by_user_id = set_null gone j.accepted_by_user_id;
      } in
      let first =
        find-keep (has_hash hash) q db.household_invites i found (ground (arith, other)) in
      let second : find (has_hash hash) (map f (keep q db.household_invites)) ≡ some (f i) =
        ground
          (arith, first, find-map (has_hash hash) f (keep q db.household_invites) (λ _. refl)) in
      let third =
        find-keep (has_hash hash) q (map f (keep q db.household_invites)) (f i) second
          (ground (arith, other)) in
      ground (arith, third, spent)

  pub is_spent-move :
      (hash : String) (user : User) (target : ℕ) (db db' : Db Q) (collected : Bool)
      (i : HouseholdInvite)
      → find (has_hash hash) db.household_invites ≡ some i
      → is_none i.accepted_at ≡ false
      → i.household_id ≡ target
      → move_user_to_household user target db ≡ ok (collected, db')
      → is_spent hash db'.household_invites ≡ true
  unfolding move_user_to_household set_household_id is_spent
  is_spent-move hash user target db db' collected i found spent there moved =
      let after : Db Q = set_household_id user.id target db in
      elim (Bool-cases (user.household_id == target)) [
        | inl same ↦ ground (arith, same, moved)
        | inr apart ↦ elim (Option-cases (next_lead user.household_id user.id db)) [
          | inl n ↦
              let gone : db' ≡ delete_household_data user.household_id after =
                ground (arith, apart, n, moved) in
              subst (λ (d : Db Q). is_spent hash d.household_invites ≡ true) (sym gone)
                (is_spent-delete_household_data hash user.household_id after i found spent (
                  ground (
                    arith,
                    apart,
                    there,
                    nat_beq_iff i.household_id user.household_id,
                    nat_beq_iff user.household_id target,
                  )))
          | inr (v, n) ↦ ground (arith, apart, n, moved, found, spent)
        ]
      ]

  pub is_spent-accept_invite :
      (env : Env) (hash : String) (who : ℕ) (db : Db Q) (i : HouseholdInvite)
      → find (has_hash hash) db.household_invites ≡ some i
      → find (λ j. j.id == i.id) db.household_invites ≡ some i
      → find (has_hash hash) (accept_invite env i who db).household_invites
        ≡ some (record i { accepted_at = some env.clock.now; accepted_by_user_id = some who })
  unfolding accept_invite
  is_spent-accept_invite env hash who db i found self =
      find-accept hash env.clock.now who db.household_invites i found self
