-- ===== src/Auth/RateLimit/Bound.antt =====
-- How many failed attempts a caller gets through in any minute.
use meals.Prelude.{
  ℕ, suc, ◌+◌, ◌≤◌, ◌≡◌, refl, Bool, true, false, ◌&&◌, List, [], ◌∷◌, ◌++◌, leb, arith, keep,
  length, length-append, if◌then◌else◌, Bool-cases, inl, inr,
}
use meals.Auth.RateLimit.{minute, prune, auth_rate_limit, pop, forgive_auth_attempt}

-- Attempts in their order, each with whether it proves its credential and is forgiven; the result
-- is the admitted attempts that failed.
unfoldable pub failures : ℕ → List ℕ → List ℕ → List (ℕ × Bool) → List ℕ
unfolding auth_rate_limit forgive_auth_attempt
failures limit window failed [] = failed
failures limit window failed ((now, proved) ∷ attempts) =
    let (admitted, after) = auth_rate_limit limit now window in
    elim admitted [
      | false ↦ failures limit after failed attempts
      | true ↦ elim proved [
        | true ↦ failures limit (forgive_auth_attempt limit after) failed attempts
        | false ↦ failures limit after (failed ++ (now ∷ [])) attempts
      ]
    ]

-- The clock does not go back.
abbrev pub IsOrdered : ℕ → List (ℕ × Bool) → Type 0
IsOrdered last [] = Unit {0}
IsOrdered last ((now, _) ∷ attempts) = (last ≤ now) × IsOrdered now attempts

unfoldable pub within : ℕ → List ℕ → ℕ
unfolding keep
within start ts = length (keep (λ t. leb start t && leb t (start + minute)) ts)

abbrev still : ℕ → ℕ → Bool
still now t = leb now (t + minute)

-- The failures that a later attempt can still meet are in the window.
abbrev IsStanding : ℕ → List ℕ → List ℕ → Type 0
IsStanding last window failed =
    (now : ℕ) → last ≤ now → length (keep (still now) failed) ≤ length (prune now window)

pop-snoc : (ts : List ℕ) (t : ℕ) → pop (ts ++ (t ∷ [])) ≡ ts
unfolding pop
pop-snoc [] t = refl
pop-snoc (x ∷ []) t = refl
pop-snoc (x ∷ y ∷ ts) t = ground (arith, pop-snoc (y ∷ ts) t)

prune-prune :
    (now later : ℕ) (ts : List ℕ) → now ≤ later → prune later (prune now ts) ≡ prune later ts
unfolding prune
prune-prune now later [] h = refl
prune-prune now later (t ∷ ts) h = ground (arith, prune-prune now later ts h)

length-prune-snoc :
    (now t : ℕ) (ts : List ℕ)
    → length (prune now ts) + (if still now t then 1 else 0) ≤ length (prune now (ts ++ (t ∷ [])))
unfolding prune
length-prune-snoc now t [] = ground arith
length-prune-snoc now t (x ∷ ts) =
    ground (arith, length-prune-snoc now t ts, length-append ts (t ∷ []))

length-keep-snoc :
    (p : ℕ → Bool) (ts : List ℕ) (t : ℕ)
    → length (keep p (ts ++ (t ∷ []))) ≡ length (keep p ts) + (if p t then 1 else 0)
unfolding keep
length-keep-snoc p [] t = ground arith
length-keep-snoc p (x ∷ ts) t = ground (arith, length-keep-snoc p ts t)

-- Failures within a minute that has not ended are still standing.
within-le-still :
    (start now : ℕ) (ts : List ℕ)
    → now ≤ start + minute
    → within start ts ≤ length (keep (still now) ts)
unfolding within keep
within-le-still start now [] h = ground arith
within-le-still start now (t ∷ ts) h = ground (arith, within-le-still start now ts h)

within-snoc :
    (start t : ℕ) (ts : List ℕ)
    → within start (ts ++ (t ∷ []))
      ≡ within start ts + (if leb start t && leb t (start + minute) then 1 else 0)
unfolding within
within-snoc start t ts = length-keep-snoc (λ x. leb start x && leb x (start + minute)) ts t

module _ (n start : ℕ) where
  failures-within :
      (attempts : List (ℕ × Bool)) (last : ℕ) (window failed : List ℕ)
      → IsOrdered last attempts
      → IsStanding last window failed
      → within start failed ≤ suc n
      → within start (failures (suc n) window failed attempts) ≤ suc n
  unfolding failures auth_rate_limit forgive_auth_attempt
  failures-within [] last window failed o st h = h
  failures-within ((now, proved) ∷ attempts) last window failed (le, o) st h =
      let standing = prune now window in
      let kept : IsStanding now standing failed =
        λ later k. ground (arith, st later (omega arith), prune-prune now later window k) in
      elim (Bool-cases (leb (suc n) (length standing))) [
        | inl full ↦ ground (arith, full, failures-within attempts now standing failed o kept h)
        | inr room ↦
            let noted : IsStanding now (standing ++ (now ∷ [])) (failed ++ (now ∷ [])) = λ later k.
              ground (
                arith,
                kept later k,
                length-prune-snoc later now standing,
                length-keep-snoc (still later) failed now,
              ) in
            let bounded : within start (failed ++ (now ∷ [])) ≤ suc n = ground (
              arith,
              room,
              st now le,
              within-snoc start now failed,
              within-le-still start now failed,
            ) in
            elim (Bool-cases proved) [
              | inl p ↦ ground (
                arith,
                room,
                p,
                pop-snoc standing now,
                failures-within attempts now standing failed o kept h,
              )
              | inr p ↦ ground (
                arith,
                room,
                p,
                failures-within attempts now (standing ++ (now ∷ [])) (failed ++ (now ∷ [])) o noted
                    bounded,
              )
            ]
      ]

-- Where attempts are limited to a positive number a minute, no more than that number of attempts
-- that fail get through within any minute, wherever it starts and however many attempts that prove
-- their credential, and are forgiven, come in between.
pub failures_bounded :
    (n start last : ℕ) (attempts : List (ℕ × Bool))
    → IsOrdered last attempts
    → within start (failures (suc n) [] [] attempts) ≤ suc n
unfolding within keep prune
failures_bounded n start last attempts o =
    failures-within n start attempts last [] [] o (λ now h. omega arith) (omega arith)
