-- ===== src/Limits/Instance.antt =====
-- backend/app/limits.py, "instance ceilings": whether the server has room for a registration.
use meals.Prelude.{
  ℕ, ◌≡◌, ◌↔◌, ◌⊎◌, Bool, true, false, Option, none, some, List, [], ◌∷◌, arith, ℤ, pos, ltb_ℤ,
  Result, ok, err, ◌>>◌, length, if◌then◌else◌,
}
use meals.Models.{Db}
use meals.Limits.Settings.{Settings}

pub data InstanceResource : Type 0 where
  households users : InstanceResource

pub record InstanceFull : Type 0 where
  pub resource : InstanceResource
  pub limit : ℤ
  pub used : ℕ

-- `instance_ceilings()[resource]`
unfoldable pub instance_ceiling : Settings → InstanceResource → Option ℤ
instance_ceiling s households = s.max_households
instance_ceiling s users = s.max_users

abbrev pub has_room : Option ℤ → ℕ → Bool
has_room none used = true
has_room (some limit) used = ltb_ℤ (pos used) limit

module _ {Q : Type 0} where
  -- `_count(db, _INSTANCE_MODELS[resource])`
  unfoldable pub count_instance : Db Q → InstanceResource → ℕ
  count_instance db households = length db.households
  count_instance db users = length db.users

  -- One round of the loop of `admit_registration`.
  unfoldable pub admit_resource :
      Settings → Db Q → InstanceResource → Result InstanceFull (Unit {0})
  unfolding instance_ceiling count_instance
  admit_resource s db r = elim (instance_ceiling s r) [
    | none ↦ ok tt
    | some limit ↦
        let used = count_instance db r in
        if ltb_ℤ (pos used) limit
        then ok tt
        else err (record { resource = r; limit = limit; used = used })
  ]

  unfoldable pub admit_all :
      Settings → Db Q → List InstanceResource → Result InstanceFull (Unit {0})
  unfolding admit_resource
  admit_all s db [] = ok tt
  admit_all s db (r ∷ rest) = admit_resource s db r >> admit_all s db rest

  unfoldable pub admit_registration : Settings → Db Q → Bool → Result InstanceFull (Unit {0})
  unfolding admit_all
  admit_registration s db invited =
      admit_all s db (if invited then users ∷ [] else households ∷ users ∷ [])

  -- A registration is admitted exactly when there is room for one more account and, unless the
  -- caller was invited, for one more household.
  pub admit_registration_iff :
      (s : Settings) (db : Db Q) (invited : Bool)
      → (admit_registration s db invited ≡ ok tt)
        ↔ (has_room s.max_users (length db.users) ≡ true)
          × ((invited ≡ true) ⊎ (has_room s.max_households (length db.households) ≡ true))
  unfolding admit_registration
  admit_registration_iff s db true = ground arith
  admit_registration_iff s db false = ground arith

  -- A refusal names a ceiling that is reached: the households' before the users', and the
  -- households' only to a caller who was not invited.
  pub admit_registration_refusal :
      (s : Settings) (db : Db Q) (invited : Bool) (e : InstanceFull)
      → admit_registration s db invited ≡ err e
      → (instance_ceiling s e.resource ≡ some e.limit)
        × (e.used ≡ count_instance db e.resource)
        × (ltb_ℤ (pos e.used) e.limit ≡ false)
        × ((e.resource ≡ users) ⊎ (invited ≡ false))
        × ((e.resource ≡ households)
            ⊎ (invited ≡ true)
            ⊎ (has_room s.max_households (length db.households) ≡ true))
  unfolding admit_registration
  admit_registration_refusal s db true e h = ground arith
  admit_registration_refusal s db false e h = ground arith
