-- ===== src/Links/Distinct.antt =====
-- Lists of cells without repetition.
use mathlib.Core.List.{append_assoc, append-nil}
use trading_system.Prelude.{
  ℕ, ◌≡◌, ◌≢◌, refl, Bool, true, false, ◌||◌, List, [], ◌∷◌, ◌++◌, arith, ◌==◌,
}

abbrev pub has : ℕ → List ℕ → Bool
has a [] = false
has a (x ∷ xs) = a == x || has a xs

infix 40 ◌∈◌ ◌∉◌
abbrev pub ◌∈◌ : ℕ → List ℕ → Type 0
a ∈ xs = has a xs ≡ true

abbrev pub ◌∉◌ : ℕ → List ℕ → Type 0
a ∉ xs = has a xs ≡ false

abbrev pub Distinct : List ℕ → Type 0
Distinct [] = Unit {0}
Distinct (x ∷ xs) = (x ∉ xs) × Distinct xs

pub has-append : (a : ℕ) (xs ys : List ℕ) → has a (xs ++ ys) ≡ (has a xs || has a ys)
has-append a [] ys = refl
has-append a (x ∷ xs) ys = ground (arith, has-append a xs ys)

pub ne_of_in : (a b : ℕ) (xs : List ℕ) → a ∈ xs → b ∉ xs → a ≢ b
ne_of_in a b xs i o e = ground (arith, i, o, e)

Distinct-snoc : (x : ℕ) (xs : List ℕ) → Distinct xs → x ∉ xs → Distinct (xs ++ (x ∷ []))
Distinct-snoc x [] d o = (refl, tt)
Distinct-snoc x (y ∷ ys) (n, d) o =
    (ground (arith, has-append y ys (x ∷ []), n, o), Distinct-snoc x ys d (ground (arith, o)))

-- The first `xs` go behind the rest.
pub Distinct-rotate : (xs ys : List ℕ) → Distinct (xs ++ ys) → Distinct (ys ++ xs)
Distinct-rotate [] ys d = rw (append-nil ys) d
Distinct-rotate (x ∷ xs) ys (n, d) =
    let e = append_assoc ys (x ∷ []) xs in
    rw (← e) (
      Distinct-rotate xs (ys ++ (x ∷ []))
        (rw (← append_assoc xs ys (x ∷ [])) (Distinct-snoc x (xs ++ ys) d n)))
