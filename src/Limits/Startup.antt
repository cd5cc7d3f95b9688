-- ===== src/Limits/Startup.antt =====
-- What the check at startup buys: the table builds, and every number in it is a count.
use meals.Prelude.{
  ◌≡◌, refl, String, Option, some, false, List, [], ◌∷◌, arith, ℤ, ok, err, Result-cases, ◌≢◌,
  >>=-eq-ok, Option-cases, Bool-cases, inl, inr,
}
use meals.Limits.Tiers.{
  Resource, members, Limits, getattr, replace, resource_of_name, LimitSet, unlimited, Table, get,
  put, profile_of_name, limit_set_of_name, tier_of_name,
}
use meals.Limits.Settings.{
  Changes, Settings, or_raise, replace_all, override, current_table, is_negative, check_changes,
  check_overrides, check_settings, bad_tier, type_error,
}

abbrev pub IsCounted : Limits → Type 0
IsCounted l = (r : Resource) → is_negative (getattr l r) ≡ false

abbrev pub AllCounted : Table → Type 0
AllCounted t = (s : LimitSet) → IsCounted (get t s)

replace-IsCounted :
    (l : Limits) (r : Resource) (v : Option ℤ)
    → IsCounted l
    → is_negative v ≡ false
    → IsCounted (replace l r v)
unfolding replace getattr
replace-IsCounted l members v hl hv q = ground (arith, hl q)
replace-IsCounted l _ v hl hv q = ground (arith, hl q)

put-AllCounted :
    (t : Table) (s : LimitSet) (l : Limits) → AllCounted t → IsCounted l → AllCounted (put t s l)
unfolding get put
put-AllCounted t unlimited l ht hl s r = ground (arith, hl r, ht s r)
put-AllCounted t _ l ht hl s r = ground (arith, hl r, ht s r)

profile-AllCounted : (name : String) (t : Table) → profile_of_name name ≡ some t → AllCounted t
unfolding profile_of_name get getattr
profile-AllCounted name t h s r = ground arith

-- Changes that pass the check apply, and leave counts.
replace_all_lem :
    (l : Limits) (c : Changes)
    → IsCounted l
    → check_changes c ≡ ok tt
    → (l' : Limits) × (replace_all l c ≡ ok l') × IsCounted l'
unfolding replace_all check_changes
replace_all_lem l [] hl h = (l, refl, hl)
replace_all_lem l ((name, v) ∷ c) hl h = elim (Option-cases (resource_of_name name)) [
  | inl e ↦ cc (rw e at h)
  | inr (r, e) ↦ elim (Bool-cases (is_negative v)) [
    | inl n ↦ cc (rw (e, n) at h)
    | inr n ↦
        rw e (replace_all_lem (replace l r v) c (replace-IsCounted l r v hl n) (rw (e, n) at h))
  ]
]

override_lem :
    (t : Table) (o : List (String × Changes))
    → AllCounted t
    → check_overrides o ≡ ok tt
    → (t' : Table) × (override t o ≡ ok t') × AllCounted t'
unfolding override check_overrides
override_lem t [] ht h = (t, refl, ht)
override_lem t ((name, c) ∷ o) ht h = elim (Option-cases (limit_set_of_name name)) [
  | inl e ↦ cc (rw e at h)
  | inr (s, e) ↦
      let (u, checked, rest) = >>=-eq-ok (check_changes c) _ (rw e at h) in
      let (l', built, counted) = replace_all_lem (get t s) c (ht s) checked in
      rw (e, built) (override_lem (put t s l') o (put-AllCounted t s l' ht counted) rest)
]

check_changes-ne-type_error : (c : Changes) → check_changes c ≢ err type_error
unfolding check_changes
check_changes-ne-type_error [] h = cc
check_changes-ne-type_error ((name, v) ∷ c) h = ground (arith, check_changes-ne-type_error c)

check_overrides-ne-type_error : (o : List (String × Changes)) → check_overrides o ≢ err type_error
unfolding check_overrides
check_overrides-ne-type_error [] h = cc
check_overrides-ne-type_error ((name, c) ∷ o) h =
    ground (arith, check_overrides-ne-type_error o, check_changes-ne-type_error c)

-- Settings that pass the check at startup have a table: it builds, and no number in it, of any
-- tier or of the ceiling, for any resource, is negative.
pub check_settings-builds :
    (s : Settings)
    → check_settings s ≡ ok tt
    → (t : Table) × (current_table s ≡ ok t) × AllCounted t
unfolding check_settings current_table
check_settings-builds s h = elim (Option-cases (profile_of_name s.limits_profile)) [
  | inl e ↦ cc (rw e at h)
  | inr (p, e) ↦
      let (tier, known, h₁) =
        >>=-eq-ok (or_raise (tier_of_name s.default_household_tier) bad_tier) _ (rw e at h) in
      let (u, checked, h₂) = >>=-eq-ok (check_overrides s.limits_overrides) _ h₁ in
      rw e (override_lem p s.limits_overrides (profile-AllCounted s.limits_profile p e) checked)
]

-- A startup is refused only by one of the named checks: the build of the table behind them never
-- meets a keyword that is no limit.
pub check_settings-ne-type_error : (s : Settings) → check_settings s ≢ err type_error
unfolding check_settings current_table
check_settings-ne-type_error s h = elim (Option-cases (profile_of_name s.limits_profile)) [
  | inl e ↦ cc (rw e at h)
  | inr (p, e) ↦ elim (Result-cases (check_overrides s.limits_overrides)) [
    | inl (u, c) ↦
        let (t, built, counted) =
          override_lem p s.limits_overrides (profile-AllCounted s.limits_profile p e) c in
        ground (arith, e, c, built)
    | inr (x, c) ↦ ground (arith, e, c, check_overrides-ne-type_error s.limits_overrides)
  ]
]
