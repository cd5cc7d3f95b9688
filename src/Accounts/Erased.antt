-- ===== src/Accounts/Erased.antt =====
-- What the deletions of backend/app/services/accounts.py leave.
use meals.Prelude.{
  ℕ, ◌≡◌, refl, ◌∙◌, ap, Bool, true, false, ◌&&◌, ◌||◌, not, leb, none, some, List, [], ◌∷◌, arith,
  length, map, keep, find, find_of_none, any, any-keep_self, any-keep_le, ◌==◌, nat_eq, option_eq,
  nat_beq_iff, Bool-cases, inl, inr,
}
use meals.Models.{Db}
use meals.Models.Users.{User, AuthToken}
use meals.Models.Planning.{PlanMeal}
use meals.Accounts.{
  is_user, is_household, is_member, household_user_count, household_has_content, set_lead,
  delete_household_data, hand_over, delete_user,
}
use meals.Models.Billing.{BillingEvent}
use meals.Accounts.Tables.{set_null, delete_users}
use meals.Accounts.Members.{distinct_ids}

-- Whether no row is selected.
is_clear : {A : Type 0} → (A → Bool) → List A → Bool
is_clear p xs = not (any p xs)

is_clear-map :
    {A : Type 0} (p : A → Bool) (f : A → A) (xs : List A)
    → ((x : A) → p (f x) ≡ p x)
    → is_clear p xs ≡ true
    → is_clear p (map f xs) ≡ true
unfolding is_clear any
is_clear-map p f [] h g = refl
is_clear-map p f (x ∷ xs) h g = ground (arith, h x, is_clear-map p f xs h)

is_clear-keep :
    {A : Type 0} (p : A → Bool) (xs : List A) → is_clear p (keep (λ x. not (p x)) xs) ≡ true
unfolding is_clear
is_clear-keep p xs = ap not (any-keep_self p xs)

any_of_clear : {A : Type 0} (p : A → Bool) (xs : List A) → is_clear p xs ≡ true → any p xs ≡ false
unfolding is_clear
any_of_clear p xs h = ground (arith, h)

length-keep_none :
    {A : Type 0} (p : A → Bool) (xs : List A) → length (keep p (keep (λ x. not (p x)) xs)) ≡ 0
unfolding keep
length-keep_none p [] = refl
length-keep_none p (x ∷ xs) = ground (arith, length-keep_none p xs)

-- The only row of a user is not kept.
no_user :
    (x : ℕ) (p : User → Bool) (us : List User) (u : User)
    → distinct_ids us ≡ true
    → find (is_user x) us ≡ some u
    → p u ≡ true
    → any (is_user x) (keep (λ v. not (p v)) us) ≡ false
unfolding distinct_ids find any keep
no_user x p [] u d h k = refl
no_user x p (v ∷ us) u d h k =
    ground
      (arith, no_user x p us u, any-keep_le (is_user x) (λ v. not (p v)) us, nat_beq_iff v.id x)

is_gone :
    (x : ℕ) (p : User → Bool) (us : List User) (u : User)
    → find (is_user x) us ≡ some u
    → p u ≡ true
    → any (λ v. v.id == x && p v) us ≡ true
unfolding find any
is_gone x p [] u h k = cc
is_gone x p (v ∷ us) u h k = ground (arith, is_gone x p us u)

no_token :
    (x : ℕ) (gone : ℕ → Bool) (ts : List AuthToken)
    → gone x ≡ true
    → any (λ t. t.user_id == x) (keep (λ t. not (gone t.user_id)) ts) ≡ false
unfolding any keep
no_token x gone [] h = refl
no_token x gone (t ∷ ts) h = elim (Bool-cases (t.user_id == x)) [
  | inl same ↦
      let out : gone t.user_id ≡ true = ap gone ((nat_beq_iff t.user_id x).0 same) ∙ h in
      ground (arith, out, no_token x gone ts h)
  | inr other ↦ ground (arith, other, no_token x gone ts h)
]

-- A ledger that has forgotten a household does not name it.
forgotten :
    (hh : ℕ) (rows : List BillingEvent)
    → any
        (λ e. e.household_id == some hh)
        (map
          (λ (e : BillingEvent). record e {
            household_id = set_null (λ id. id == hh) e.household_id;
          })
          rows)
      ≡ false
unfolding any
forgotten hh [] = refl
forgotten hh (e ∷ rows) = ground (arith, forgotten hh rows)

-- Nothing of eight kinds is nothing at all.
none_of_eight :
    {a b c d e f g h : Bool}
    → a ≡ false
    → b ≡ false
    → c ≡ false
    → d ≡ false
    → e ≡ false
    → f ≡ false
    → g ≡ false
    → h ≡ false
    → (a || b || c || d || e || f || g || h) ≡ false
none_of_eight a b c d e f g h = ground (arith, a, b, c, d, e, f, g, h)

module _ {Q : Type 0} where
  cleared_history :
      (hh : ℕ) (db : Db Q)
      → is_clear (λ e. e.household_id == hh) (delete_household_data hh db).cooked_events ≡ true
  unfolding delete_household_data
  cleared_history hh db =
      is_clear-map _ _ _ (λ _. refl)
        (is_clear-map _ _ _ (λ _. refl)
          (is_clear-map _ _ _ (λ _. refl)
            (is_clear-map _ _ _ (λ _. refl)
              (is_clear-map _ _ _ (λ _. refl)
                (is_clear-keep (λ e. e.household_id == hh) db.cooked_events)))))

  cleared_freezer :
      (hh : ℕ) (db : Db Q)
      → is_clear (λ i. i.household_id == hh) (delete_household_data hh db).freezer_items ≡ true
  unfolding delete_household_data
  cleared_freezer hh db =
      is_clear-map _ _ _ (λ _. refl)
        (is_clear-map _ _ _ (λ _. refl)
          (is_clear-map _ _ _ (λ _. refl)
            (is_clear-keep (λ i. i.household_id == hh) db.freezer_items)))

  cleared_food :
      (hh : ℕ) (db : Db Q)
      → (is_clear (λ r. r.household_id == hh) (delete_household_data hh db).recipes ≡ true)
        × (is_clear (λ m. m.household_id == hh) (delete_household_data hh db).meal_rows ≡ true)
  unfolding delete_household_data
  cleared_food hh db = (
    is_clear-map _ _ _ (λ _. refl) (is_clear-keep (λ r. r.household_id == hh) db.recipes),
    is_clear-map _ _ _ (λ _. refl) (is_clear-keep (λ m. m.household_id == hh) db.meal_rows),
  )

  -- The tables whose rows are only deleted.
  cleared_rest :
      (hh : ℕ) (db : Db Q)
      → (any (λ p. p.household_id == hh) (delete_household_data hh db).plans ≡ false)
        × (any (λ l. l.household_id == hh) (delete_household_data hh db).shopping_lists ≡ false)
        × (any (λ i. i.household_id == hh) (delete_household_data hh db).ingredients ≡ false)
        × (any (λ s. s.household_id == hh) (delete_household_data hh db).supermarkets ≡ false)
  unfolding delete_household_data
  cleared_rest hh db = (
    any-keep_self (λ p. p.household_id == hh) db.plans,
    any-keep_self (λ l. l.household_id == hh) db.shopping_lists,
    any-keep_self (λ i. i.household_id == hh) db.ingredients,
    any-keep_self (λ s. s.household_id == hh) db.supermarkets,
  )

  no_content : (hh : ℕ) (db : Db Q) → household_has_content hh (delete_household_data hh db) ≡ false
  unfolding household_has_content
  no_content hh db =
      let left = delete_household_data hh db in
      let (recipes, meals) = cleared_food hh db in
      let (plans, lists, ingredients, supermarkets) = cleared_rest hh db in
      none_of_eight (any_of_clear (λ r. r.household_id == hh) left.recipes recipes)
        (any_of_clear (λ m. m.household_id == hh) left.meal_rows meals) plans lists ingredients
        supermarkets
        (any_of_clear (λ e. e.household_id == hh) left.cooked_events (cleared_history hh db))
        (any_of_clear (λ i. i.household_id == hh) left.freezer_items (cleared_freezer hh db))

  -- The rows that hang on a list, a plan, a user or the household itself.
  cleared_lines :
      (hh : ℕ) (db : Db Q)
      → is_clear
          (λ i. any (λ l. l.id == i.list_id && l.household_id == hh) db.shopping_lists)
          (delete_household_data hh db).list_items
        ≡ true
  unfolding delete_household_data
  cleared_lines hh db =
      is_clear-map _ _ _ (λ _. refl)
        (is_clear-map _ _ _ (λ _. refl)
          (is_clear-map _ _ _ (λ _. refl)
            (is_clear-keep
              (λ i. any (λ l. l.id == i.list_id && l.household_id == hh) db.shopping_lists)
              db.list_items)))

  cleared_hanging :
      (hh : ℕ) (db : Db Q)
      → (any
            (λ m. any (λ p. p.id == m.plan_id && p.household_id == hh) db.plans)
            (delete_household_data hh db).plan_meals
          ≡ false)
        × (any
              (λ t. any (λ u. u.id == t.user_id && is_member hh u) db.users)
              (delete_household_data hh db).auth_tokens
            ≡ false)
        × (any (λ i. i.household_id == hh) (delete_household_data hh db).household_invites ≡ false)
        × (any (λ e. e.household_id == some hh) (delete_household_data hh db).billing_events
            ≡ false)
  unfolding delete_household_data
  cleared_hanging hh db = (
    any-keep_le (λ (m : PlanMeal). any (λ p. p.id == m.plan_id && p.household_id == hh) db.plans)
        (λ m. not (any (λ r. r.id == m.meal_id && r.household_id == hh) db.meal_rows)) _
        (any-keep_self (λ m. any (λ p. p.id == m.plan_id && p.household_id == hh) db.plans)
          db.plan_meals),
    any-keep_self (λ t. any (λ u. u.id == t.user_id && is_member hh u) db.users) db.auth_tokens,
    any-keep_self (λ i. i.household_id == hh) _,
    forgotten hh db.billing_events,
  )

  -- Behind the deletion of a household's data the household is not there, nobody is in it and it
  -- has no content. Its lists have left no line, its plans no planned meal and its users no token;
  -- no invitation is for it, and no row of the ledger names it.
  pub delete_household_data-empty :
      (hh : ℕ) (db : Db Q)
      → let left = delete_household_data hh db in
        (find (is_household hh) left.households ≡ none)
        × (household_user_count hh left ≡ 0)
        × (household_has_content hh left ≡ false)
        × (any
              (λ i. any (λ l. l.id == i.list_id && l.household_id == hh) db.shopping_lists)
              left.list_items
            ≡ false)
        × (any (λ m. any (λ p. p.id == m.plan_id && p.household_id == hh) db.plans) left.plan_meals
            ≡ false)
        × (any (λ t. any (λ u. u.id == t.user_id && is_member hh u) db.users) left.auth_tokens
            ≡ false)
        × (any (λ i. i.household_id == hh) left.household_invites ≡ false)
        × (any (λ e. e.household_id == some hh) left.billing_events ≡ false)
  unfolding delete_household_data household_user_count
  delete_household_data-empty hh db =
      let (planned, tokens, invites, rows) = cleared_hanging hh db in
      (
        find_of_none (is_household hh) _ (any-keep_self (λ h. h.id == hh) _),
        length-keep_none (is_member hh) db.users,
        no_content hh db,
        any_of_clear (λ i. any (λ l. l.id == i.list_id && l.household_id == hh) db.shopping_lists) _
            (cleared_lines hh db),
        planned,
        tokens,
        invites,
        rows,
      )

  hand_over-rows :
      (user : User) (db : Db Q)
      → ((hand_over user db).users ≡ db.users) × ((hand_over user db).auth_tokens ≡ db.auth_tokens)
  unfolding hand_over set_lead
  hand_over-rows user db = ground arith

  -- When ids are unique, a user who is deleted is not there, and no token, of any kind, names them.
  pub delete_user-erased :
      (user : User) (db : Db Q)
      → distinct_ids db.users ≡ true
      → find (is_user user.id) db.users ≡ some user
      → (any (is_user user.id) (delete_user user db).1.users ≡ false)
        × (any (λ t. t.user_id == user.id) (delete_user user db).1.auth_tokens ≡ false)
  unfolding delete_user delete_household_data delete_users
  delete_user-erased user db d found =
      let x = user.id in
      let here : is_member user.household_id user ≡ true =
        (nat_beq_iff user.household_id user.household_id).1 refl in
      let self : is_user x user ≡ true = (nat_beq_iff x x).1 refl in
      let p = is_member user.household_id in
      elim (Bool-cases (leb (household_user_count user.household_id db) 1)) [
        | inl last ↦ ground (
          arith,
          last,
          no_user x p db.users user d found here,
          no_token x (λ id. any (λ v. v.id == id && p v) db.users) db.auth_tokens
              (is_gone x p db.users user found here),
        )
        | inr others ↦
            let (us, ts) = hand_over-rows user db in
            ground (
              arith,
              others,
              us,
              ts,
              no_user x (is_user x) db.users user d found self,
              no_token x (λ id. any (λ v. v.id == id && is_user x v) db.users) db.auth_tokens
                  (is_gone x (is_user x) db.users user found self),
            )
      ]
