-- ===== src/Types/Printing/Digits.antt =====
-- The digits of a number say which number it is.
use native.Mathlib.Numerals.{unary_clauses}
use trading_system.Prelude.{
  ℕ, zero, suc, ◌+◌, ◌*◌, ◌/◌, ◌%◌, ◌^◌, ◌<◌, ◌≡◌, refl, ◌∙◌, inl, inr, List, [], ◌∷◌, ◌++◌, arith,
  ltb, Bool-cases,
}
use trading_system.Types.Printing.{digits}

-- The number that a list of digits denotes, read behind `acc`.
abbrev pub value : ℕ → List ℕ → ℕ
value acc [] = acc
value acc (d ∷ ds) = value (acc * 10 + d) ds

value-append : (acc : ℕ) (ds : List ℕ) (d : ℕ) → value acc (ds ++ (d ∷ [])) ≡ value acc ds * 10 + d
value-append acc [] d = refl
value-append acc (x ∷ ds) d = value-append (acc * 10 + x) ds d

value-one_digit : (k n : ℕ) → n < 10 → value 0 (digits (suc k) n) ≡ n
unfolding digits
value-one_digit k n h = ground arith

tenth : (k n : ℕ) → n < 10 ^ suc (suc k) → n / 10 < 10 ^ suc k
tenth k n h =
    let grows : 10 ^ suc (suc k) ≡ 10 ^ suc k * 10 = simp unary_clauses refl in
    omega (arith, h, grows)

-- A number below `10 ^ k` is the one that its digits denote, for `k` at least one.
pub value-digits : (k n : ℕ) → n < 10 ^ suc k → value 0 (digits (suc k) n) ≡ n
unfolding digits
value-digits zero n h = value-one_digit zero n (omega (arith, h))
value-digits (suc k) n h = elim (Bool-cases (ltb n 10)) [
  | inl e ↦ value-one_digit (suc k) n (ground arith)
  | inr e ↦
      rw (digits, e)
        (value-append 0 (digits (suc k) (n / 10)) (n % 10)
          ∙ rw (value-digits k (n / 10) (tenth k n h)) (omega arith))
]
