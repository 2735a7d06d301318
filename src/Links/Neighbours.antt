-- ===== src/Links/Neighbours.antt =====
-- The neighbours of a cell in its ring.
use trading_system.Prelude.{ℕ, ◌≡◌, ◌≢◌, refl, ◌∙◌, Option, none, some, List, [], ◌∷◌, ◌++◌, arith}
use trading_system.Links.Distinct.{has, ◌∈◌, ◌∉◌, has-append}
use trading_system.Links.Ring.{Link, Ring, Ring-rotate, Chain-last, last, last-in}

abbrev pub first : List ℕ → Option ℕ
first [] = none
first (x ∷ xs) = some x

pub first-none : (xs : List ℕ) → first xs ≡ none → xs ≡ []
first-none [] e = refl
first-none (x ∷ xs) e = cc

pub record Neighbours (next prev : Link) (xs : List ℕ) (i : ℕ) (ys : List ℕ) : Type 0 where
  pub before : ℕ
  pub after : ℕ
  pub back : prev i ≡ some before
  pub forth : next i ≡ some after
  pub before_in : before ∈ (xs ++ ys)
  pub after_in : after ∈ (xs ++ ys)
  pub out : i ∉ (xs ++ ys)
  pub follows : xs ≡ [] → first ys ≡ some after

first-append : (x : ℕ) (xs ys : List ℕ) → first (ys ++ (x ∷ xs)) ≢ none
first-append x xs [] e = cc
first-append x xs (y ∷ ys) e = cc

has_swap : (a : ℕ) (xs ys : List ℕ) → has a (xs ++ ys) ≡ has a (ys ++ xs)
has_swap a xs ys = ground (arith, has-append a xs ys, has-append a ys xs)

module _ {next prev : Link} where
  of_first :
      (i : ℕ) (zs : List ℕ)
      → Ring next prev (i ∷ zs)
      → first zs ≢ none
      → Neighbours next prev [] i zs
  of_first i [] r h = absurd (h refl)
  of_first i (x ∷ zs) r h =
      let (n, p, c) = r.linked in
      let (e, f) = Chain-last next prev x zs i c in
      record {
        before = last x zs;
        after = x;
        back = f;
        forth = n;
        before_in = last-in x zs;
        after_in = ground arith;
        out = r.distinct.0;
        follows = λ q. refl;
      }

  -- In a ring with other cells, each cell has neighbours among them.
  pub Ring-Neighbours :
      (xs : List ℕ) (i : ℕ) (ys : List ℕ)
      → Ring next prev (xs ++ (i ∷ ys))
      → first (xs ++ ys) ≢ none
      → Neighbours next prev xs i ys
  Ring-Neighbours [] i ys r h = of_first i ys r h
  Ring-Neighbours (x ∷ xs) i ys r h =
      let t = Ring-rotate next prev (x ∷ xs) (i ∷ ys) r in
      let m = of_first i (ys ++ (x ∷ xs)) t (first-append x xs ys) in
      record {
        before = m.before;
        after = m.after;
        back = m.back;
        forth = m.forth;
        before_in = has_swap m.before (x ∷ xs) ys ∙ m.before_in;
        after_in = has_swap m.after (x ∷ xs) ys ∙ m.after_in;
        out = has_swap i (x ∷ xs) ys ∙ m.out;
        follows = λ q. cc;
      }
