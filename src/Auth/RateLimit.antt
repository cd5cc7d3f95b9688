-- ===== src/Auth/RateLimit.antt =====
-- backend/app/deps.py, "rate limiting": one caller's window of attempts, oldest first. Instants are
-- microseconds of the monotonic clock.
pub mod Bound
use meals.Prelude.{
  ℕ, zero, suc, ◌+◌, Bool, true, false, Option, none, some, List, [], ◌∷◌, ◌++◌, ltb, leb, length,
  if◌then◌else◌,
}

abbrev pub minute : ℕ
minute = 60_000_000

-- `while window and now - window[0] > 60: window.popleft()`
unfoldable pub prune : ℕ → List ℕ → List ℕ
prune now [] = []
prune now (t ∷ window) = elim (ltb (t + minute) now) [
  | true ↦ prune now window
  | false ↦ t ∷ window
]

-- The setting AUTH_RATE_LIMIT_PER_MINUTE, with 0 for any number that is not positive: no limit.
-- `false` is the answer 429, behind the pruning.
unfoldable pub auth_rate_limit : ℕ → ℕ → List ℕ → Bool × List ℕ
unfolding prune
auth_rate_limit zero now window = (true, window)
auth_rate_limit (suc n) now window =
    let standing = prune now window in
    if leb (suc n) (length standing) then (false, standing) else (true, standing ++ (now ∷ []))

-- `if window: window.pop()`
unfoldable pub pop : List ℕ → List ℕ
pop [] = []
pop (t ∷ []) = []
pop (t ∷ u ∷ window) = t ∷ pop (u ∷ window)

unfoldable pub forgive_auth_attempt : ℕ → List ℕ → List ℕ
unfolding pop
forgive_auth_attempt zero window = window
forgive_auth_attempt (suc n) window = pop window
