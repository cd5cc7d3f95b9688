-- ===== src/Prelude/Lists.antt =====
-- Lists measured by native numbers, and the list operations that the program's queries use.
use Prim.Native.Nat.{ℕ, suc, ◌+◌, ◌≤◌}
use mathlib.Core.Path.{◌≡◌, refl}
use mathlib.Core.Logic.{◌≢◌}
use mathlib.Core.Option
use mathlib.Core.Bool.{Bool, true, false, not, ◌&&◌, ◌||◌}
use mathlib.Core.List.{List, [], ◌∷◌, ◌++◌, map}
use mathlib.Core.Option.{Option, none, some}
use native.Mathlib.Omega.{arith}
use meals.Prelude.Tests.{if◌then◌else◌, Comparable}

module _ {ℓ} {A : Type ℓ} where
  abbrev pub length : List A → ℕ
  length [] = 0
  length (x ∷ xs) = suc (length xs)

  pub length-append : (xs ys : List A) → length (xs ++ ys) ≡ length xs + length ys
  length-append [] ys = omega arith
  length-append (x ∷ xs) ys = omega (arith, length-append xs ys)

  -- The rows of a table that a `where` clause selects.
  unfoldable pub keep : (A → Bool) → List A → List A
  keep p [] = []
  keep p (x ∷ xs) = if p x then x ∷ keep p xs else keep p xs

  -- `.scalars().first()`
  unfoldable pub find : (A → Bool) → List A → Option A
  find p [] = none
  find p (x ∷ xs) = if p x then some x else find p xs

  unfoldable pub any : (A → Bool) → List A → Bool
  any p [] = false
  any p (x ∷ xs) = p x || any p xs

  unfoldable pub all : (A → Bool) → List A → Bool
  all p [] = true
  all p (x ∷ xs) = p x && all p xs

  -- A change of every selected row.
  unfoldable pub update_where : (A → Bool) → (A → A) → List A → List A
  update_where p f [] = []
  update_where p f (x ∷ xs) = (if p x then f x else x) ∷ update_where p f xs

  -- A change of the first selected row.
  unfoldable pub update_first : (A → Bool) → (A → A) → List A → List A
  update_first p f [] = []
  update_first p f (x ∷ xs) = if p x then f x ∷ xs else x ∷ update_first p f xs

  -- The first selected row is deleted.
  unfoldable pub erase_first : (A → Bool) → List A → List A
  erase_first p [] = []
  erase_first p (x ∷ xs) = if p x then xs else x ∷ erase_first p xs

  -- A predicate of every element, by recursion, which the tactics read.
  abbrev pub All {κ} : (A → Type κ) → List A → Type κ
  All P [] = Unit
  All P (x ∷ xs) = P x × All P xs

  pub All-append {κ} : (P : A → Type κ) (xs ys : List A) → All P xs → All P ys → All P (xs ++ ys)
  All-append P [] ys _ q = q
  All-append P (x ∷ xs) ys (p, ps) q = (p, All-append P xs ys ps q)

  pub All-keep {κ} : (P : A → Type κ) (p : A → Bool) (xs : List A) → All P xs → All P (keep p xs)
  unfolding keep
  All-keep P p [] h = h
  All-keep P p (x ∷ xs) (h, hs) = ground (arith, All-keep P p xs hs)

  pub length-keep-le : (p : A → Bool) (xs : List A) → length (keep p xs) ≤ length xs
  unfolding keep
  length-keep-le p [] = omega arith
  length-keep-le p (x ∷ xs) = ground (arith, length-keep-le p xs)

module _ {ℓ} {A : Type ℓ} ⦃c : Comparable A⦄ where
  -- `a in xs`
  unfoldable pub mem : A → List A → Bool
  mem a [] = false
  mem a (x ∷ xs) = c.same x a || mem a xs

module _ {ℓ} {A : Type ℓ} where
  -- A change that the selection does not see is met by the search.
  pub find-update_where :
      (p q : A → Bool) (f : A → A) (xs : List A)
      → ((x : A) → p (f x) ≡ p x)
      → find p (update_where q f xs) ≡ Option.map (λ x. if q x then f x else x) (find p xs)
  unfolding find update_where
  find-update_where p q f [] h = refl
  find-update_where p q f (x ∷ xs) h = ground (arith, h x, find-update_where p q f xs h)

  pub find-holds : (p : A → Bool) (xs : List A) (a : A) → find p xs ≡ some a → p a ≡ true
  unfolding find
  find-holds p [] a h = cc
  find-holds p (x ∷ xs) a h = ground (arith, find-holds p xs a)

  pub length-update_where :
      (p : A → Bool) (f : A → A) (xs : List A) → length (update_where p f xs) ≡ length xs
  unfolding update_where
  length-update_where p f [] = omega arith
  length-update_where p f (x ∷ xs) = omega (arith, length-update_where p f xs)

  pub keep-append : (p : A → Bool) (xs ys : List A) → keep p (xs ++ ys) ≡ keep p xs ++ keep p ys
  unfolding keep
  keep-append p [] ys = refl
  keep-append p (x ∷ xs) ys = ground (arith, keep-append p xs ys)

  pub any-append : (p : A → Bool) (xs ys : List A) → any p (xs ++ ys) ≡ (any p xs || any p ys)
  unfolding any
  any-append p [] ys = refl
  any-append p (x ∷ xs) ys = ground (arith, any-append p xs ys)

  pub keep_of_none : (p : A → Bool) (xs : List A) → any p xs ≡ false → keep (λ x. not (p x)) xs ≡ xs
  unfolding keep any
  keep_of_none p [] h = refl
  keep_of_none p (x ∷ xs) h = ground (arith, keep_of_none p xs)

  pub any-keep_self : (p : A → Bool) (xs : List A) → any p (keep (λ x. not (p x)) xs) ≡ false
  unfolding keep any
  any-keep_self p [] = refl
  any-keep_self p (x ∷ xs) = ground (arith, any-keep_self p xs)

  pub update_where_of_none :
      (p : A → Bool) (f : A → A) (xs : List A) → any p xs ≡ false → update_where p f xs ≡ xs
  unfolding update_where any
  update_where_of_none p f [] h = refl
  update_where_of_none p f (x ∷ xs) h = ground (arith, update_where_of_none p f xs)

  pub find-append :
      (p : A → Bool) (xs ys : List A) → find p xs ≡ none → find p (xs ++ ys) ≡ find p ys
  unfolding find
  find-append p [] ys h = refl
  find-append p (x ∷ xs) ys h = ground (arith, find-append p xs ys)

  pub any_of_find : (p : A → Bool) (xs : List A) (a : A) → find p xs ≡ some a → any p xs ≡ true
  unfolding find any
  any_of_find p [] a h = cc
  any_of_find p (x ∷ xs) a h = ground (arith, any_of_find p xs a)

  pub find_of_any : (p : A → Bool) (xs : List A) → any p xs ≡ true → find p xs ≢ none
  unfolding find any
  find_of_any p [] h e = cc
  find_of_any p (x ∷ xs) h e = ground (arith, find_of_any p xs)

  -- A change of the first selected row is one of the row that the search finds.
  pub update_first_found :
      (p : A → Bool) (f : A → A) (xs : List A) (a : A)
      → find p xs ≡ some a
      → update_first p f xs ≡ update_first p (λ _. f a) xs
  unfolding find update_first
  update_first_found p f [] a h = refl
  update_first_found p f (x ∷ xs) a h = ground (arith, update_first_found p f xs a)

  pub update_first_same :
      (p : A → Bool) (xs : List A) (a : A) → find p xs ≡ some a → update_first p (λ _. a) xs ≡ xs
  unfolding find update_first
  update_first_same p [] a h = refl
  update_first_same p (x ∷ xs) a h = ground (arith, update_first_same p xs a)

  pub update_first_missing :
      (p : A → Bool) (f : A → A) (xs : List A) → find p xs ≡ none → update_first p f xs ≡ xs
  unfolding find update_first
  update_first_missing p f [] h = refl
  update_first_missing p f (x ∷ xs) h = ground (arith, update_first_missing p f xs)

  pub find-update_first :
      (p : A → Bool) (a b : A) (xs : List A)
      → find p xs ≡ some a
      → p b ≡ true
      → find p (update_first p (λ _. b) xs) ≡ some b
  unfolding find update_first
  find-update_first p a b [] h k = cc
  find-update_first p a b (x ∷ xs) h k = ground (arith, find-update_first p a b xs)

  pub update_first_twice :
      (p : A → Bool) (a b : A) (xs : List A)
      → p b ≡ true
      → update_first p (λ _. b) (update_first p (λ _. b) xs) ≡ update_first p (λ _. b) xs
  unfolding update_first
  update_first_twice p a b [] k = refl
  update_first_twice p a b (x ∷ xs) k = ground (arith, update_first_twice p a b xs)

  -- A row that is kept is still the first that the search finds.
  pub find-keep :
      (p q : A → Bool) (xs : List A) (a : A)
      → find p xs ≡ some a
      → q a ≡ true
      → find p (keep q xs) ≡ some a
  unfolding find keep
  find-keep p q [] a h k = cc
  find-keep p q (x ∷ xs) a h k = ground (arith, find-keep p q xs a)

  -- A search is blind to the deletion of rows that it does not look for.
  pub find-keep_other :
      (p q : A → Bool) (xs : List A)
      → ((x : A) → q x ≡ false → p x ≡ false)
      → find p (keep q xs) ≡ find p xs
  unfolding find keep
  find-keep_other p q [] h = refl
  find-keep_other p q (x ∷ xs) h = ground (arith, h x, find-keep_other p q xs h)

  pub find-update_first_other :
      (p q : A → Bool) (f : A → A) (xs : List A)
      → ((x : A) → p (f x) ≡ p x)
      → ((x : A) → q x ≡ true → p x ≡ false)
      → find p (update_first q f xs) ≡ find p xs
  unfolding find update_first
  find-update_first_other p q f [] h k = refl
  find-update_first_other p q f (x ∷ xs) h k =
      ground (arith, h x, k x, find-update_first_other p q f xs h k)

  pub find-map :
      (p : A → Bool) (f : A → A) (xs : List A)
      → ((x : A) → p (f x) ≡ p x)
      → find p (map f xs) ≡ Option.map f (find p xs)
  unfolding find
  find-map p f [] h = refl
  find-map p f (x ∷ xs) h = ground (arith, h x, find-map p f xs h)

  pub any-keep_le : (p q : A → Bool) (xs : List A) → any p xs ≡ false → any p (keep q xs) ≡ false
  unfolding any keep
  any-keep_le p q [] h = refl
  any-keep_le p q (x ∷ xs) h = ground (arith, any-keep_le p q xs)

  pub any-update_first :
      (p q : A → Bool) (f : A → A) (xs : List A)
      → ((x : A) → p (f x) ≡ p x)
      → any p (update_first q f xs) ≡ any p xs
  unfolding any update_first
  any-update_first p q f [] h = refl
  any-update_first p q f (x ∷ xs) h = ground (arith, h x, any-update_first p q f xs h)

  pub find_of_none : (p : A → Bool) (xs : List A) → any p xs ≡ false → find p xs ≡ none
  unfolding find any
  find_of_none p [] h = refl
  find_of_none p (x ∷ xs) h = ground (arith, find_of_none p xs)
