-- ===== src/Supermarkets/Complete.antt =====
-- The effective order has every aisle exactly once.
use meals.Prelude.{
  ◌+◌, ◌≡◌, refl, String, Bool, true, false, ◌&&◌, ◌||◌, not, List, [], ◌∷◌, ◌++◌, arith, keep,
  keep-append, length-append, mem, ◌==◌, string_eq, if◌then◌else◌,
}
use meals.Supermarkets.{known_of, effective_aisle_order, count_of}

pub mem-append : (e : String) (xs ys : List String) → mem e (xs ++ ys) ≡ (mem e xs || mem e ys)
unfolding mem
mem-append e [] ys = refl
mem-append e (x ∷ xs) ys = ground (arith, mem-append e xs ys)

pub count_of-append :
    (e : String) (xs ys : List String) → count_of e (xs ++ ys) ≡ count_of e xs + count_of e ys
unfolding count_of
count_of-append e xs ys = ground (
  arith,
  keep-append (λ x. x == e) xs ys,
  length-append (keep (λ x. x == e) xs) (keep (λ x. x == e) ys),
)

count_of_absent : (e : String) (xs : List String) → mem e xs ≡ false → count_of e xs ≡ 0
unfolding count_of mem keep
count_of_absent e [] h = refl
count_of_absent e (x ∷ xs) h = ground (arith, count_of_absent e xs)

-- Dropping what is known leaves the other aisles as often as they are there.
count_of-keep :
    (e : String) (known xs : List String)
    → count_of e (keep (λ x. not (mem x known)) xs) ≡ (if mem e known then 0 else count_of e xs)
unfolding count_of keep
count_of-keep e known [] = ground arith
count_of-keep e known (x ∷ xs) = ground (arith, count_of-keep e known xs, string_eq.same_iff x e)

module _ (aisles : List String) where
  mem-known_of :
      (e : String) (known stored : List String)
      → mem e (known_of aisles known stored) ≡ (mem e known || (mem e stored && mem e aisles))
  unfolding known_of mem
  mem-known_of e known [] = ground arith
  mem-known_of e known (x ∷ stored) = ground (
    arith,
    mem-known_of e known stored,
    mem-known_of e (known ++ (x ∷ [])) stored,
    mem-append e known (x ∷ []),
    string_eq.same_iff x e,
  )

  count_of-known_of :
      (e : String) (known stored : List String)
      → count_of e (known_of aisles known stored)
        ≡ (if mem e known then count_of e known else if mem e stored && mem e aisles then 1 else 0)
  unfolding known_of mem count_of keep
  count_of-known_of e known [] = ground (arith, count_of_absent e known)
  count_of-known_of e known (x ∷ stored) = ground (
    arith,
    count_of-known_of e known stored,
    count_of-known_of e (known ++ (x ∷ [])) stored,
    mem-append e known (x ∷ []),
    count_of-append e known (x ∷ []),
    count_of_absent e known,
    string_eq.same_iff x e,
  )

-- No aisle stands twice.
unfoldable pub are_distinct : List String → Bool
unfolding mem
are_distinct [] = true
are_distinct (x ∷ xs) = not (mem x xs) && are_distinct xs

count_of_distinct :
    (e : String) (xs : List String) → are_distinct xs ≡ true → mem e xs ≡ true → count_of e xs ≡ 1
unfolding are_distinct mem count_of keep
count_of_distinct e [] h k = cc
count_of_distinct e (x ∷ xs) h k =
    ground (arith, count_of_distinct e xs, count_of_absent e xs, string_eq.same_iff x e)

-- Whatever order is stored, stale, repeated or empty: the effective order has every aisle of the
-- vocabulary exactly as often as the vocabulary has it, which has none twice, and no other entry.
pub count_of-effective_aisle_order :
    (aisles : List String) (e : String) (stored : List String)
    → are_distinct aisles ≡ true
    → count_of e (effective_aisle_order aisles stored) ≡ count_of e aisles
unfolding effective_aisle_order
count_of-effective_aisle_order aisles e [] h = refl
count_of-effective_aisle_order aisles e (x ∷ stored) h =
    let known = known_of aisles [] (x ∷ stored) in
    unfold mem in
    ground (
      arith,
      count_of-append e known (keep (λ y. not (mem y known)) aisles),
      count_of-keep e known aisles,
      count_of-known_of aisles e [] (x ∷ stored),
      mem-known_of aisles e [] (x ∷ stored),
      count_of_distinct e aisles h,
    )
