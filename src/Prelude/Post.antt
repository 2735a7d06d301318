-- ===== src/Prelude/Post.antt =====
-- Statements about the outcome of a call. `Ensures P r`: the call does not run out of fuel, and if
-- it returns, what it returns satisfies `P`.
use trading_system.Prelude.Outcome.{
  Error, out_of_fuel, Result, ok, err, ◌>>=◌, ◌>>◌, require, deref,
}
use mathlib.Core.Path.{◌≡◌, refl, subst}
use mathlib.Core.Bool.{Bool, true, false}
use mathlib.Core.Option.{Option, none, some}
use trading_system.Prelude.Tests.{if◌then◌else◌}

-- Errors other than that of the model's own fuel.
abbrev pub IsFault : Error → Type 0
IsFault out_of_fuel = ⊥
IsFault _ = Unit {0}

pub ok-injective {ℓ} : {A : Type ℓ} {a b : A} → ok a ≡ ok b → a ≡ b
ok-injective h = cc

pub data Ensures {ℓ κ} {A : Type ℓ} (P : A → Type κ) : Result A → Type (ℓ ⊔ κ) where
  returns : {a : A} → P a → Ensures P (ok a)
  faults : {e : Error} → IsFault e → Ensures P (err e)

module _ {ℓ κ} {A : Type ℓ} {P : A → Type κ} where
  pub Ensures-mono {μ} :
      {Q : A → Type μ} {r : Result A} → Ensures P r → ((a : A) → P a → Q a) → Ensures Q r
  Ensures-mono (returns {a} p) f = returns (f a p)
  Ensures-mono (faults e) f = faults e

  pub Ensures-ok : {r : Result A} {a : A} → Ensures P r → r ≡ ok a → P a
  Ensures-ok (returns p) h = subst P (ok-injective h) p
  Ensures-ok (faults e) h = cc

  pub Ensures-bind {μ ν} :
      {B : Type μ} {Q : B → Type ν} {m : Result A} {f : A → Result B}
      → Ensures P m
      → ((a : A) → P a → Ensures Q (f a))
      → Ensures Q (m >>= f)
  Ensures-bind (returns {a} p) g = g a p
  Ensures-bind (faults e) g = faults e

module _ {ℓ κ} {B : Type ℓ} {Q : B → Type κ} where
  pub Ensures-deref {μ} :
      {A : Type μ} (p : Option A) {f : A → Result B}
      → ((a : A) → Ensures Q (f a))
      → Ensures Q (deref p >>= f)
  Ensures-deref none g = faults tt
  Ensures-deref (some a) g = g a

  pub Ensures-if :
      (c : Bool) {x y : Result B} → Ensures Q x → Ensures Q y → Ensures Q (if c then x else y)
  Ensures-if true g h = g
  Ensures-if false g h = h

  pub Ensures-require :
      (b : Bool) (e : Error) {m : Result B} → IsFault e → Ensures Q m → Ensures Q (require b e >> m)
  Ensures-require true e f h = h
  Ensures-require false e f h = faults f

-- The call returns, and what it returns satisfies `P`.
pub data Returns {ℓ κ} {A : Type ℓ} (P : A → Type κ) : Result A → Type (ℓ ⊔ κ) where
  gives : {a : A} → P a → Returns P (ok a)

pub Returns-bind {ℓ κ μ ν} :
    {A : Type ℓ} {B : Type κ} {P : A → Type μ} {Q : B → Type ν} {m : Result A} {f : A → Result B}
    → Returns P m
    → ((a : A) → P a → Returns Q (f a))
    → Returns Q (m >>= f)
Returns-bind (gives {a} p) g = g a p

pub Returns-deref {ℓ κ μ} :
    {A : Type ℓ} {B : Type κ} {Q : B → Type μ} {p : Option A} {a : A} (f : A → Result B)
    → p ≡ some a
    → Returns Q (f a)
    → Returns Q (deref p >>= f)
Returns-deref f e h = rw e h

pub Returns-if {ℓ κ} :
    {A : Type ℓ} {P : A → Type κ} (c : Bool) {x y : Result A}
    → Returns P x
    → Returns P y
    → Returns P (if c then x else y)
Returns-if true p q = p
Returns-if false p q = q

pub Returns-mono {ℓ κ μ} :
    {A : Type ℓ} {P : A → Type κ} {Q : A → Type μ} {r : Result A}
    → Returns P r
    → ((a : A) → P a → Q a)
    → Returns Q r
Returns-mono (gives {a} p) f = gives (f a p)

-- A call that returns, and that ensures `P`, returns with `P`.
pub Returns-Ensures {ℓ κ μ} :
    {A : Type ℓ} {P : A → Type κ} {Q : A → Type μ} {r : Result A}
    → Returns Q r
    → Ensures P r
    → (a : A) × (r ≡ ok a) × P a
Returns-Ensures (gives {a} q) e = (a, refl, Ensures-ok e refl)

pub Returns-and {ℓ κ μ} :
    {A : Type ℓ} {P : A → Type κ} {Q : A → Type μ} {r : Result A}
    → Returns Q r
    → Ensures P r
    → Returns (λ a. Q a × P a) r
Returns-and (gives {a} q) e = gives (q, Ensures-ok e refl)

-- Whatever the call returns satisfies `P`. It may fail.
pub data Allows {ℓ κ} {A : Type ℓ} (P : A → Type κ) : Result A → Type (ℓ ⊔ κ) where
  allowed : {a : A} → P a → Allows P (ok a)
  failed : {e : Error} → Allows P (err e)

module _ {ℓ κ} {A : Type ℓ} {P : A → Type κ} where
  pub Allows-ok : {r : Result A} {a : A} → Allows P r → r ≡ ok a → P a
  Allows-ok (allowed p) h = subst P (ok-injective h) p
  Allows-ok failed h = cc

  pub Allows-mono {μ} :
      {Q : A → Type μ} {r : Result A} → Allows P r → ((a : A) → P a → Q a) → Allows Q r
  Allows-mono (allowed {a} p) f = allowed (f a p)
  Allows-mono failed f = failed

  pub Allows-bind {μ ν} :
      {B : Type μ} {Q : B → Type ν} {m : Result A} {f : A → Result B}
      → Allows P m
      → ((a : A) → P a → Allows Q (f a))
      → Allows Q (m >>= f)
  Allows-bind (allowed {a} p) g = g a p
  Allows-bind failed g = failed

  pub Allows-require :
      (b : Bool) (e : Error) {m : Result A} → Allows P m → Allows P (require b e >> m)
  Allows-require true e h = h
  Allows-require false e h = failed

-- What is known of nothing but that it returns.
pub Allows-any {ℓ} : {A : Type ℓ} (r : Result A) → Allows (λ _. Unit {0}) r
Allows-any (ok a) = allowed tt
Allows-any (err e) = failed

pub Returns-Allows {ℓ κ} : {A : Type ℓ} {P : A → Type κ} {r : Result A} → Returns P r → Allows P r
Returns-Allows (gives p) = allowed p
