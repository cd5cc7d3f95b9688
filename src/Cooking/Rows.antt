-- ===== src/Cooking/Rows.antt =====
-- The refresh of rows of one table, for meals and for recipes alike.
use meals.Prelude.{
  ℕ, ◌≡◌, refl, ◌∙◌, ap, sym, false, List, [], ◌∷◌, map, mem, update_where, arith, ◌==◌, nat_eq,
  nat_beq_iff, if◌then◌else◌,
}
use meals.Cooking.{refresh_all}

module _ {M N : Type 0} (id_of : M → ℕ) (refresh : M → M) (see : M → N)
    (unseen : (m : M) → see (refresh m) ≡ see m) where
  map-update_where :
      (id : ℕ) (rows : List M)
      → map see (update_where (λ m. id_of m == id) refresh rows) ≡ map see rows
  unfolding update_where
  map-update_where id [] = refl
  map-update_where id (m ∷ rows) = ground (arith, map-update_where id rows, unseen m)

  -- A view that is blind to what a refresh writes sees nothing of it.
  pub map-refresh_all :
      (ids : List ℕ) (rows : List M) → map see (refresh_all id_of refresh ids rows) ≡ map see rows
  unfolding refresh_all
  map-refresh_all [] rows = refl
  map-refresh_all (id ∷ ids) rows =
      map-refresh_all ids (update_where (λ m. id_of m == id) refresh rows)
      ∙ map-update_where id rows

module _ {E M : Type 0} (id_of : M → ℕ) (restat : E → M → M) (refresh : M → M) (e e' : E)
    (same_row : (m : M) → id_of (refresh m) ≡ id_of m)
    (settles : (m : M) → refresh (refresh m) ≡ refresh m)
    (agrees_then : (m : M) → restat e' (refresh m) ≡ refresh m) where
  -- What a refresh of some ids does to a row.
  abbrev refreshed : List ℕ → M → M
  refreshed ids m = if mem (id_of m) ids then refresh m else m

  refreshed-update_where :
      (id : ℕ) (ids : List ℕ) (rows : List M)
      → map (refreshed ids) (update_where (λ m. id_of m == id) refresh rows)
        ≡ map (refreshed (id ∷ ids)) rows
  unfolding update_where mem
  refreshed-update_where id ids [] = refl
  refreshed-update_where id ids (m ∷ rows) = ground (
    arith,
    refreshed-update_where id ids rows,
    settles m,
    same_row m,
    nat_beq_iff id (id_of m),
    nat_beq_iff (id_of m) id,
  )

  refreshed-nil : (rows : List M) → map (refreshed []) rows ≡ rows
  unfolding mem
  refreshed-nil [] = refl
  refreshed-nil (m ∷ rows) = ground (arith, refreshed-nil rows)

  refresh_all-eq :
      (ids : List ℕ) (rows : List M) → refresh_all id_of refresh ids rows ≡ map (refreshed ids) rows
  unfolding refresh_all
  refresh_all-eq [] rows = sym (refreshed-nil rows)
  refresh_all-eq (id ∷ ids) rows =
      refresh_all-eq ids (update_where (λ m. id_of m == id) refresh rows)
      ∙ refreshed-update_where id ids rows

  agrees-refreshed :
      (ids : List ℕ) (rows : List M)
      → ((m : M) → mem (id_of m) ids ≡ false → restat e' m ≡ restat e m)
      → map (restat e) rows ≡ rows
      → map (restat e') (map (refreshed ids) rows) ≡ map (refreshed ids) rows
  agrees-refreshed ids [] untouched h = refl
  agrees-refreshed ids (m ∷ rows) untouched h =
      ground (arith, agrees-refreshed ids rows untouched, untouched m, agrees_then m)

  -- If new events touch only the rows that are refreshed, rows that agreed with the events before
  -- agree with those after.
  pub refresh_all-agrees :
      (ids : List ℕ) (rows : List M)
      → ((m : M) → mem (id_of m) ids ≡ false → restat e' m ≡ restat e m)
      → map (restat e) rows ≡ rows
      → map (restat e') (refresh_all id_of refresh ids rows) ≡ refresh_all id_of refresh ids rows
  refresh_all-agrees ids rows untouched agrees =
      ap (map (restat e')) (refresh_all-eq ids rows)
      ∙ agrees-refreshed ids rows untouched agrees
      ∙ sym (refresh_all-eq ids rows)
