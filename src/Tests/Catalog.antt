-- ===== src/Tests/Catalog.antt =====
-- A run of the catalogue.
use meals.Prelude.{find, ◌≡◌, refl, true, false, ok}
use meals.Limits.Tiers.{hosted_profile}
use meals.Catalog.{
  get_or_create_ingredient, insert_ingredient, find_ingredient, has_key, has_name, identity_of_name,
}
use meals.Catalog.Identity.{get_or_create_again}
use meals.Tests.Data.{store, hosted, clock, as_written, ids}

get_or_create_again_example :
    let fresh = insert_ingredient ids as_written 1 "egg" store in
    get_or_create_ingredient ids hosted hosted_profile clock as_written 1 "egg" true fresh.1
    ≡ ok fresh
unfolding get_or_create_ingredient find_ingredient has_key has_name identity_of_name find
get_or_create_again_example =
    get_or_create_again ids hosted hosted_profile clock as_written 1 "egg" "egg" false true store
      (insert_ingredient ids as_written 1 "egg" store).1
      (insert_ingredient ids as_written 1 "egg" store).0 refl refl
