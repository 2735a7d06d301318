-- ===== src/Prelude/Outcome.antt =====
-- The outcome of a call that may end the process or leave the language's defined behaviour.
use mathlib.Core.Path.{◌≡◌, refl}
use mathlib.Core.Logic.{◌⊎◌, inl, inr}
use mathlib.Core.Bool.{Bool, true, false}
use mathlib.Core.Option.{Option, none, some}

-- `null_pointer` is a read or write through a null pointer, `out_of_range` an array access outside
-- its bounds, `assert_failed` a failed `assert` or `ASSERT` (the process ends), `overflow` a signed
-- overflow, and `out_of_fuel` a loop of the model that used up its fuel.
pub data Error : Type 0 where
  null_pointer out_of_range assert_failed overflow out_of_fuel : Error

pub data Result {ℓ} (A : Type ℓ) : Type ℓ where
  err : Error → Result A
  ok : A → Result A

-- The first error ends the chain.
abbrev pub ◌>>=◌ {ℓ κ} : {A : Type ℓ} {B : Type κ} → Result A → (A → Result B) → Result B
m >>= f = elim m [ err e ↦ err e | ok a ↦ f a ]

abbrev pub ◌>>◌ {ℓ} : {B : Type ℓ} → Result (Unit {0}) → Result B → Result B
check >> rest = elim check [ err e ↦ err e | ok _ ↦ rest ]

infixl 5 ◌>>=◌ ◌>>◌
-- `assert(b)` and `ASSERT(b, ...)`, and a bounds check that fails with `e`.
abbrev pub require : Bool → Error → Result (Unit {0})
require true e = ok tt
require false e = err e

-- The target of a pointer.
abbrev pub deref {ℓ} : {A : Type ℓ} → Option A → Result A
deref none = err null_pointer
deref (some p) = ok p

pub Result-cases {ℓ} :
    {A : Type ℓ} (m : Result A) → ((a : A) × (m ≡ ok a)) ⊎ ((e : Error) × (m ≡ err e))
Result-cases (ok a) = inl (a, refl)
Result-cases (err e) = inr (e, refl)
