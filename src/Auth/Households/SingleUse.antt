-- ===== src/Auth/Households/SingleUse.antt =====
-- The two ways to use an invitation in backend/app/routers/auth.py.
use meals.Prelude.{
  map_err, map_err-eq-ok, ◌≡◌, refl, sym, subst, ◌⊎◌, String, Bool, true, raise_if, some, arith,
  find, ◌==◌, nat_eq, string_eq, Result-cases, inl, inr, ok, err, >>=-eq-ok,
}
use meals.Models.{Db}
use meals.Models.Users.{User, HouseholdInvite}
use meals.Accounts.{move_user_to_household, leads_alongside_others}
use meals.Auth.Service.{
  Env, Service, RegisterIn, Answer, bad_invite, same_household, hand_over_first, needs_force,
  not_moved,
}
use meals.Auth.Security.{hash_short_code}
use meals.Auth.Sessions.{sign_in, session_token}
use meals.Auth.Guests.{
  find_invite, accept_invite, enforce_members, invitation, code_given, write_registration, register,
  new_user,
}
use meals.Auth.Guests.Once.{
  is_spent, find_invite-eq-ok, find_invite_spent, is_spent-move, is_spent-accept_invite,
}
use meals.Auth.Households.{must_force, redeem_invite}

module _ {Q : Type 0} (env : Env) (code : String) (st st' : Service Q) (a : Answer) where
  -- Redeemed by somebody who is signed in, or by a new account.
  spent_by_redemption :
      (user : User) (force : Bool)
      → ((i : HouseholdInvite)
          → find_invite env code st.db ≡ ok i
          → find (λ j. j.id == i.id) st.db.household_invites ≡ some i)
      → redeem_invite env user code force st ≡ ok (a, st')
      → is_spent (hash_short_code env.secrets code) st'.db.household_invites ≡ true
  unfolding redeem_invite
  spent_by_redemption user force self h =
      let hash = hash_short_code env.secrets code in
      let (i, e, h₁) = >>=-eq-ok (find_invite env code st.db) _ h in
      let (_, _, h₂) =
        >>=-eq-ok (raise_if (i.household_id == user.household_id) same_household) _ h₁ in
      let (_, _, h₃) =
        >>=-eq-ok (raise_if (leads_alongside_others user st.db) hand_over_first) _ h₂ in
      let (_, _, h₄) = >>=-eq-ok (raise_if (must_force user force st.db) needs_force) _ h₃ in
      let (_, _, h₅) = >>=-eq-ok (enforce_members env i.household_id st.db) _ h₄ in
      let db₁ = accept_invite env i user.id st.db in
      let ((collected, db₂), m, h₆) =
        >>=-eq-ok (map_err not_moved (move_user_to_household user i.household_id db₁)) _ h₅ in
      let ends : st'.db ≡ db₂ = ground (arith, h₆) in
      let accepted = record i {
        accepted_at = some env.clock.now;
        accepted_by_user_id = some user.id;
      } in
      subst (λ (d : Db Q). is_spent hash d.household_invites ≡ true) (sym ends)
        (is_spent-move hash user i.household_id db₁ db₂ collected accepted
          (is_spent-accept_invite env hash user.id st.db i (find_invite-eq-ok env code st.db i e)
            (self i e))
          refl refl (map_err-eq-ok not_moved _ m))

  spent_by_registration :
      (payload : RegisterIn)
      → code_given payload.invite_code ≡ some code
      → ((i : HouseholdInvite)
          → find_invite env code st.db ≡ ok i
          → find (λ j. j.id == i.id) st.db.household_invites ≡ some i)
      → register env payload st ≡ ok (a, st')
      → is_spent (hash_short_code env.secrets code) st'.db.household_invites ≡ true
  unfolding register invitation write_registration sign_in session_token is_spent
  spent_by_registration payload given self h = elim (Result-cases (find_invite env code st.db)) [
    | inr (e, n) ↦ absurd (ground (arith, h, given, n))
    | inl (i, e) ↦
        let hash = hash_short_code env.secrets code in
        let v = new_user env st.db.drawn i.household_id payload in
        let rows : st'.db.household_invites ≡ (accept_invite env i v.id st.db).household_invites =
          ground (arith, h, given, e) in
        subst (λ is. is_spent hash is ≡ true) (sym rows)
          (ground (
            arith,
            is_spent-accept_invite env hash v.id st.db i (find_invite-eq-ok env code st.db i e)
                (self i e),
          ))
  ]

  -- When a request redeems a code, whoever brings it, and the invitation with that code is the one
  -- with its id, then any later registration or redemption with the code, by whomever and at any
  -- time, is refused as a bad invitation. The hash of the code stays the same.
  pub redeemed_once :
      (user other : User) (force again : Bool) (payload next : RegisterIn) (later : Env)
      → ((i : HouseholdInvite)
          → find_invite env code st.db ≡ ok i
          → find (λ j. j.id == i.id) st.db.household_invites ≡ some i)
      → (redeem_invite env user code force st ≡ ok (a, st'))
        ⊎ ((code_given payload.invite_code ≡ some code) × (register env payload st ≡ ok (a, st')))
      → code_given next.invite_code ≡ some code
      → hash_short_code later.secrets code ≡ hash_short_code env.secrets code
      → (redeem_invite later other code again st' ≡ err bad_invite)
        × (register later next st' ≡ err bad_invite)
  unfolding redeem_invite register invitation
  redeemed_once user other force again payload next later self how given same =
      let spent : is_spent (hash_short_code env.secrets code) st'.db.household_invites ≡ true =
        elim how [
          | inl h ↦ spent_by_redemption user force self h
          | inr (g, h) ↦ spent_by_registration payload g self h
        ] in
      let refused =
        find_invite_spent later code st'.db
          (subst (λ hash. is_spent hash st'.db.household_invites ≡ true) (sym same) spent) in
      (ground (arith, refused), ground (arith, refused, given))
