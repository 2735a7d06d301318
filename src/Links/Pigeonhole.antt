-- ===== src/Links/Pigeonhole.antt =====
-- A list of different numbers below a bound is no longer than the bound.
use trading_system.Prelude.{
  ℕ, zero, suc, ◌<◌, ◌≤◌, ◌≡◌, refl, ap, false, List, [], ◌∷◌, arith, ◌==◌, if◌then◌else◌, inl, inr,
  Bool-cases, length,
}
use trading_system.Links.Distinct.{has, ◌∈◌, ◌∉◌, Distinct}

abbrev remove : ℕ → List ℕ → List ℕ
remove a [] = []
remove a (x ∷ xs) = if a == x then xs else x ∷ remove a xs

has-remove : (j a : ℕ) (xs : List ℕ) → j ∈ remove a xs → j ∈ xs
has-remove j a [] m = m
has-remove j a (x ∷ xs) m = ground (arith, m, has-remove j a xs)

out_of-remove : (j a : ℕ) (xs : List ℕ) → j ∉ xs → j ∉ remove a xs
out_of-remove j a [] m = m
out_of-remove j a (x ∷ xs) m = ground (arith, m, out_of-remove j a xs (ground (arith, m)))

self-remove : (a : ℕ) (xs : List ℕ) → Distinct xs → a ∉ remove a xs
self-remove a [] d = refl
self-remove a (x ∷ xs) (o, d) = ground (arith, o, self-remove a xs d)

Distinct-remove : (a : ℕ) (xs : List ℕ) → Distinct xs → Distinct (remove a xs)
Distinct-remove a [] d = tt
Distinct-remove a (x ∷ xs) (o, d) = elim (Bool-cases (a == x)) [
  | inl e ↦ rw e d
  | inr e ↦ rw e (out_of-remove x a xs o, Distinct-remove a xs d)
]

length-remove : (a : ℕ) (xs : List ℕ) → a ∈ xs → length xs ≡ suc (length (remove a xs))
length-remove a [] m = cc
length-remove a (x ∷ xs) m = elim (Bool-cases (a == x)) [
  | inl e ↦ rw e refl
  | inr e ↦ rw e (ap suc (length-remove a xs (ground (arith, m, e))))
]

pub length_le-bound :
    (n : ℕ) (xs : List ℕ) → Distinct xs → ((j : ℕ) → j ∈ xs → j < n) → length xs ≤ n
length_le-bound n [] d f = omega arith
length_le-bound zero (x ∷ xs) d f = absurd (omega (arith, f x (ground arith)))
length_le-bound (suc n) (x ∷ xs) d f = elim (Bool-cases (has n (x ∷ xs))) [
  | inl e ↦
      let shorter =
        length_le-bound n (remove n (x ∷ xs)) (Distinct-remove n (x ∷ xs) d) λ j m.
          below j (has-remove j n (x ∷ xs) m) (ground (arith, m, self-remove n (x ∷ xs) d)) in
      omega (arith, shorter, length-remove n (x ∷ xs) e)
  | inr e ↦
      let same = length_le-bound n (x ∷ xs) d λ j m. below j m (ground (arith, m, e)) in
      omega (arith, same)
]
  where
    below : (j : ℕ) → j ∈ (x ∷ xs) → (j == n) ≡ false → j < n
    below j m o = ground (arith, f j m, o)
