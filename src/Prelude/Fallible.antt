-- ===== src/Prelude/Fallible.antt =====
-- Fallible code: a value or the exception that was raised.
use mathlib.Core.Logic.{◌⊎◌, inl, inr}
use mathlib.Core.Path.{◌≡◌, refl}
use mathlib.Core.Bool.{Bool, true, false}
use mathlib.Core.Option.{Option, none, some}
use native.Mathlib.Omega.{arith}

pub data Result {ℓ} (E A : Type ℓ) : Type ℓ where
  ok : A → Result E A
  err : E → Result E A

-- A step and what follows it, with its value and without.
infixl 5 ◌>>=◌ ◌>>◌
abbrev pub ◌>>=◌ {ℓ} : {E A B : Type ℓ} → Result E A → (A → Result E B) → Result E B
err raised >>= next = err raised
ok value >>= next = next value

abbrev pub ◌>>◌ {ℓ} : {E B : Type ℓ} → Result E (Unit {ℓ}) → Result E B → Result E B
first >> next = first >>= λ _. next

abbrev pub is_ok {ℓ} : {E A : Type ℓ} → Result E A → Bool
is_ok (ok _) = true
is_ok (err _) = false

-- `if bad: raise e`
abbrev pub raise_if {ℓ} : {E : Type ℓ} → Bool → E → Result E (Unit {ℓ})
raise_if true e = err e
raise_if false e = ok tt

-- A chain that ends well went well at its first step.
pub >>=-eq-ok {ℓ} :
    {E A B : Type ℓ} (first : Result E A) (next : A → Result E B) {end : B}
    → (first >>= next) ≡ ok end
    → (value : A) × (first ≡ ok value) × (next value ≡ ok end)
>>=-eq-ok (err raised) next h = cc
>>=-eq-ok (ok value) next h = (value, refl, h)

pub Result-cases {ℓ} :
    {E A : Type ℓ} (m : Result E A) → ((a : A) × (m ≡ ok a)) ⊎ ((e : E) × (m ≡ err e))
Result-cases (ok a) = inl (a, refl)
Result-cases (err e) = inr (e, refl)

-- A refusal of another part, as a refusal of a request.
abbrev pub map_err {ℓ} : {E F A : Type ℓ} → (E → F) → Result E A → Result F A
map_err f (ok a) = ok a
map_err f (err e) = err (f e)

-- `scalar_one_or_none`, and a refusal if there is no row.
abbrev pub found_or {ℓ} : {E A : Type ℓ} → E → Option A → Result E A
found_or e none = err e
found_or e (some a) = ok a

pub map_err-eq-ok {ℓ} :
    {E F A : Type ℓ} (f : E → F) (m : Result E A) {a : A} → map_err f m ≡ ok a → m ≡ ok a
map_err-eq-ok f (ok a) h = ground (arith, h)
map_err-eq-ok f (err e) h = cc

pub found_or-eq-ok {ℓ} :
    {E A : Type ℓ} (e : E) (o : Option A) {a : A} → found_or e o ≡ ok a → o ≡ some a
found_or-eq-ok e none h = cc
found_or-eq-ok e (some a) h = ground (arith, h)
