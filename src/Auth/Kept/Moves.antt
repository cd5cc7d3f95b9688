-- ===== src/Auth/Kept/Moves.antt =====
-- The handlers of registrations, members and invitations in backend/app/routers/auth.py, and the lead.
use meals.Prelude.{
  map_err, found_or, map_err-eq-ok, found_or-eq-ok, ℕ, suc, ◌≤◌, ◌≡◌, refl, sym, subst, String,
  Bool, false, not, raise_if, Option, none, some, [], ◌∷◌, ◌++◌, arith, find, any, ◌==◌, nat_eq,
  string_eq, nat_beq_iff, option_eq, find-holds, ok, >>=-eq-ok,
}
use meals.Models.{Db}
use meals.Models.Users.{User, HouseholdInvite}
use meals.Accounts.{is_user, leads_alongside_others, move_user_to_household, delete_user}
use meals.Accounts.Succession.{IsSound, move_user_to_household-IsSound}
use meals.Accounts.HandingOver.{delete_user-IsSound}
use meals.Auth.Service.{
  Env, Service, RegisterIn, Answer, not_moved, no_such_member, same_household, hand_over_first,
  needs_force,
}
use meals.Auth.Sessions.{session_token, forgive, sign_in}
use meals.Auth.Guests.{
  new_household, new_user, find_invite, accept_invite, write_registration, register, invitation,
  enforce_members, code_given, name_or_home, delete_account,
}
use meals.Auth.Households.{
  get_household, may_remove, remove_member, create_invite, must_force, redeem_invite, revoke_invite,
}
use meals.Auth.Kept.Writes.{
  IsSound-same, IsSound-joined, IsSound-founded, led_in-home, led_in-home_of,
}

module _ {Q : Type 0} where
  write_registration-IsSound :
      (env : Env) (payload : RegisterIn) (invited : Option HouseholdInvite) (st st' : Service Q)
      (a : Answer)
      → ((n : ℕ) → st.db.drawn ≤ n → any (is_user (env.uuid4 n)) st.db.users ≡ false)
      → write_registration env payload invited st ≡ ok (a, st')
      → IsSound st.db
      → IsSound st'.db
  unfolding write_registration accept_invite sign_in session_token new_user new_household
  write_registration-IsSound env payload (some invite) st st' a fresh h sound =
      let v = new_user env st.db.drawn invite.household_id payload in
      let joined : Db Q = record st.db { users = st.db.users ++ (v ∷ []) } in
      IsSound-same joined st'.db (ground (arith, h)) (ground (arith, h))
        (IsSound-joined st.db v (fresh st.db.drawn (omega arith)) sound)
  write_registration-IsSound env payload none st st' a fresh h sound =
      let id = env.uuid4 st.db.drawn in
      let v = new_user env (suc st.db.drawn) id payload in
      let home =
        new_household env id (env.strip (name_or_home payload.household_name)) (some v.id) in
      let founded : Db Q = record st.db {
        users = st.db.users ++ (v ∷ []);
        households = st.db.households ++ (home ∷ []);
      } in
      IsSound-same founded st'.db (ground (arith, h)) (ground (arith, h))
        (IsSound-founded st.db v home (fresh (suc st.db.drawn) (omega arith)) refl refl sound)

  pub register-IsSound :
      (env : Env) (payload : RegisterIn) (st st' : Service Q) (a : Answer)
      → ((n : ℕ) → st.db.drawn ≤ n → any (is_user (env.uuid4 n)) st.db.users ≡ false)
      → register env payload st ≡ ok (a, st')
      → IsSound st.db
      → IsSound st'.db
  unfolding register
  register-IsSound env payload st st' a fresh h sound =
      let (invited, _, h₁) =
        >>=-eq-ok (invitation env (code_given payload.invite_code) st.db) _ h in
      let written : write_registration env payload invited st ≡ ok (a, st') = ground (arith, h₁) in
      write_registration-IsSound env payload invited st st' a fresh written sound

  pub delete_account-IsSound :
      (env : Env) (user : User) (password : String) (st st' : Service Q) (a : Answer)
      → find (is_user user.id) st.db.users ≡ some user
      → delete_account env user password st ≡ ok (a, st')
      → IsSound st.db
      → IsSound st'.db
  unfolding delete_account forgive
  delete_account-IsSound env user password st st' a found h sound =
      let ends : st'.db ≡ (delete_user user st.db).1 = ground (arith, h) in
      subst IsSound (sym ends) (delete_user-IsSound user st.db sound found)

  pub create_invite-IsSound :
      (env : Env) (user : User) (days : ℕ) (st st' : Service Q) (a : Answer)
      → create_invite env user days st ≡ ok (a, st')
      → IsSound st.db
      → IsSound st'.db
  unfolding create_invite
  create_invite-IsSound env user days st st' a h sound =
      IsSound-same st.db st'.db (ground (arith, h)) (ground (arith, h)) sound

  pub revoke_invite-IsSound :
      (user : User) (id : ℕ) (st st' : Service Q) (a : Answer)
      → revoke_invite user id st ≡ ok (a, st')
      → IsSound st.db
      → IsSound st'.db
  unfolding revoke_invite
  revoke_invite-IsSound user id st st' a h sound =
      IsSound-same st.db st'.db (ground (arith, h)) (ground (arith, h)) sound

  pub get_household-IsSound :
      (user : User) (st st' : Service Q) (a : Answer)
      → get_household user st ≡ ok (a, st')
      → IsSound st.db
      → IsSound st'.db
  unfolding get_household
  get_household-IsSound user st st' a h sound =
      IsSound-same st.db st'.db (ground (arith, h)) (ground (arith, h)) sound

  pub redeem_invite-IsSound :
      (env : Env) (user : User) (code : String) (force : Bool) (st st' : Service Q) (a : Answer)
      → find (is_user user.id) st.db.users ≡ some user
      → redeem_invite env user code force st ≡ ok (a, st')
      → IsSound st.db
      → IsSound st'.db
  unfolding redeem_invite accept_invite
  redeem_invite-IsSound env user code force st st' a found h sound =
      let (invite, _, h₁) = >>=-eq-ok (find_invite env code st.db) _ h in
      let (_, _, h₂) =
        >>=-eq-ok (raise_if (invite.household_id == user.household_id) same_household) _ h₁ in
      let (_, _, h₃) =
        >>=-eq-ok (raise_if (leads_alongside_others user st.db) hand_over_first) _ h₂ in
      let (_, _, h₄) = >>=-eq-ok (raise_if (must_force user force st.db) needs_force) _ h₃ in
      let (_, _, h₅) = >>=-eq-ok (enforce_members env invite.household_id st.db) _ h₄ in
      let db₁ = accept_invite env invite user.id st.db in
      let ((collected, db₂), m, h₆) =
        >>=-eq-ok (map_err not_moved (move_user_to_household user invite.household_id db₁)) _ h₅ in
      let ends : st'.db ≡ db₂ = ground (arith, h₆) in
      subst IsSound (sym ends) (
        move_user_to_household-IsSound user invite.household_id db₁ db₂ collected sound.unique found
          (λ k _. sound.led k) (λ k _. sound.led k) (map_err-eq-ok not_moved _ m))

  pub remove_member-IsSound :
      (env : Env) (user : User) (id : ℕ) (st st' : Service Q) (a : Answer)
      → remove_member env user id st ≡ ok (a, st')
      → IsSound st.db
      → IsSound st'.db
  unfolding remove_member new_household
  remove_member-IsSound env user id st st' a h sound =
      let us = st.db.users in
      let hs = st.db.households in
      let (target, e, h₁) = >>=-eq-ok (found_or no_such_member (find (is_user id) us)) _ h in
      let (_, _, h₂) =
        >>=-eq-ok (raise_if (not (target.household_id == user.household_id)) no_such_member) _ h₁ in
      let (_, _, h₃) = >>=-eq-ok (may_remove user target st.db) _ h₂ in
      let home = new_household env (env.uuid4 st.db.drawn) "Home" (some target.id) in
      let db₁ : Db Q = record st.db { households = hs ++ (home ∷ []); drawn = suc st.db.drawn } in
      let ((collected, db₂), m, h₄) =
        >>=-eq-ok (map_err not_moved (move_user_to_household target home.id db₁)) _ h₃ in
      let ends : st'.db ≡ db₂ = ground (arith, h₄) in
      let there : find (is_user id) us ≡ some target = found_or-eq-ok no_such_member _ e in
      let same : target.id ≡ id =
        (nat_beq_iff target.id id).0 (find-holds (is_user id) us target there) in
      subst IsSound (sym ends) (
        move_user_to_household-IsSound target home.id db₁ db₂ collected sound.unique
          (subst (λ i. find (is_user i) us ≡ some target) (sym same) there)
          (λ k not_his. led_in-home_of k target.id us hs home (sound.led k) refl not_his)
          (λ k other.
            led_in-home k us hs home (sound.led k)
              (ground (arith, other, nat_beq_iff home.id k, nat_beq_iff k home.id)))
          (map_err-eq-ok not_moved _ m))
