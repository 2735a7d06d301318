-- ===== src/Links/Ring.antt =====
-- A ring of cells: `next` leads through the listed cells, in order, and back to the first, and `prev`
-- the other way.
use mathlib.Core.List.{append_assoc, append-nil}
use trading_system.Prelude.{
  ℕ, ◌≡◌, ◌≢◌, sym, ap, ◌∙◌, Option, some, List, [], ◌∷◌, ◌++◌, arith, update,
}
use trading_system.Links.Distinct.{◌∈◌, ◌∉◌, Distinct, Distinct-rotate, has-append, ne_of_in}

abbrev pub Link : Type 0
Link = ℕ → Option ℕ

-- From `a` through `xs` to `z`.
abbrev pub Chain : Link → Link → ℕ → List ℕ → ℕ → Type 0
Chain next prev a [] z = (next a ≡ some z) × (prev z ≡ some a)
Chain next prev a (y ∷ ys) z = (next a ≡ some y) × (prev y ≡ some a) × Chain next prev y ys z

abbrev pub Linked : Link → Link → List ℕ → Type 0
Linked next prev [] = Unit {0}
Linked next prev (x ∷ xs) = Chain next prev x xs x

pub record Ring (next prev : Link) (xs : List ℕ) : Type 0 where
  pub distinct : Distinct xs
  pub linked : Linked next prev xs

abbrev pub last : ℕ → List ℕ → ℕ
last a [] = a
last a (x ∷ xs) = last x xs

pub last-in : (a : ℕ) (xs : List ℕ) → last a xs ∈ (a ∷ xs)
last-in a [] = ground arith
last-in a (x ∷ xs) = ground (arith, last-in x xs)

module _ (next prev : Link) where
  Chain-snoc :
      (a : ℕ) (xs : List ℕ) (z w : ℕ)
      → Chain next prev a xs z
      → next z ≡ some w
      → prev w ≡ some z
      → Chain next prev a (xs ++ (z ∷ [])) w
  Chain-snoc a [] z w (n, p) e f = (n, p, (e, f))
  Chain-snoc a (x ∷ xs) z w (n, p, c) e f = (n, p, Chain-snoc x xs z w c e f)

  Linked-rotate : (xs ys : List ℕ) → Linked next prev (xs ++ ys) → Linked next prev (ys ++ xs)
  Linked-rotate [] ys l = rw (append-nil ys) l
  Linked-rotate (x ∷ xs) ys l =
      rw (← append_assoc ys (x ∷ []) xs)
        (Linked-rotate xs (ys ++ (x ∷ [])) (rw (← append_assoc xs ys (x ∷ [])) (one (xs ++ ys) l)))
    where
      one : (zs : List ℕ) → Linked next prev (x ∷ zs) → Linked next prev (zs ++ (x ∷ []))
      one [] l = l
      one (z ∷ zs) (n, p, c) = Chain-snoc z zs x z c n p

  pub Ring-rotate : (xs ys : List ℕ) → Ring next prev (xs ++ ys) → Ring next prev (ys ++ xs)
  Ring-rotate xs ys r = record {
    distinct = Distinct-rotate xs ys r.distinct;
    linked = Linked-rotate xs ys r.linked;
  }

  -- The ends of a chain.
  pub Chain-last :
      (a : ℕ) (xs : List ℕ) (z : ℕ)
      → Chain next prev a xs z
      → (next (last a xs) ≡ some z) × (prev z ≡ some (last a xs))
  Chain-last a [] z c = c
  Chain-last a (x ∷ xs) z (n, p, c) = Chain-last x xs z c

  -- The chain that leads to another cell from its last one on.
  retarget :
      (next' prev' : Link) (a : ℕ) (xs : List ℕ) (z z' : ℕ)
      → Distinct (a ∷ xs)
      → Chain next prev a xs z
      → ((j : ℕ) → j ∈ (a ∷ xs) → j ≢ last a xs → next' j ≡ next j)
      → ((j : ℕ) → j ∈ xs → prev' j ≡ prev j)
      → next' (last a xs) ≡ some z'
      → prev' z' ≡ some (last a xs)
      → Chain next' prev' a xs z'
  retarget next' prev' a [] z z' d c same_next same_prev e f = (e, f)
  retarget next' prev' a (x ∷ xs) z z' (o, d) (n, p, c) same_next same_prev e f = (
    same_next a (ground arith) (λ q. ne_of_in (last x xs) a (x ∷ xs) (last-in x xs) o (sym q)) ∙ n,
    same_prev x (ground arith) ∙ p,
    retarget next' prev' x xs z z' d c (λ j i. same_next j (ground (arith, i)))
        (λ j i. same_prev j (ground (arith, i))) e f,
  )

-- Neither link of a listed cell has changed.
pub Ring-same :
    {next prev next' prev' : Link} (xs : List ℕ)
    → Ring next prev xs
    → ((j : ℕ) → j ∈ xs → next' j ≡ next j)
    → ((j : ℕ) → j ∈ xs → prev' j ≡ prev j)
    → Ring next' prev' xs
Ring-same [] r same_next same_prev = record { distinct = tt; linked = tt }
Ring-same {next} {prev} {next'} {prev'} (x ∷ xs) r same_next same_prev =
    let (e, f) = Chain-last next prev x xs x r.linked in
    record {
      distinct = r.distinct;
      linked =
          retarget next prev next' prev' x xs x x r.distinct r.linked (λ j i _. same_next j i)
            (λ j i. same_prev j (ground (arith, i))) (same_next (last x xs) (last-in x xs) ∙ e)
            (same_prev x (ground arith) ∙ f);
    }

module _ {next prev next' prev' : Link} where
  -- A cell goes in behind the last one.
  Ring-snoc :
      (x : ℕ) (xs : List ℕ) (i : ℕ)
      → Ring next prev (x ∷ xs)
      → i ∉ (x ∷ xs)
      → ((j : ℕ) → j ∈ (x ∷ xs) → j ≢ last x xs → next' j ≡ next j)
      → ((j : ℕ) → j ∈ xs → prev' j ≡ prev j)
      → next' (last x xs) ≡ some i
      → prev' i ≡ some (last x xs)
      → next' i ≡ some x
      → prev' x ≡ some i
      → Ring next' prev' (x ∷ xs ++ (i ∷ []))
  Ring-snoc x xs i r out same_next same_prev a b c d = record {
    distinct = Distinct-rotate (i ∷ []) (x ∷ xs) (out, r.distinct);
    linked =
        Chain-snoc next' prev' x xs i x
          (retarget next prev next' prev' x xs x i r.distinct r.linked same_next same_prev a b) c d;
  }

  -- The first cell leaves.
  Ring-tail :
      (i x : ℕ) (xs : List ℕ)
      → Ring next prev (i ∷ x ∷ xs)
      → ((j : ℕ) → j ∈ (x ∷ xs) → j ≢ last x xs → next' j ≡ next j)
      → ((j : ℕ) → j ∈ xs → prev' j ≡ prev j)
      → next' (last x xs) ≡ some x
      → prev' x ≡ some (last x xs)
      → Ring next' prev' (x ∷ xs)
  Ring-tail i x xs r same_next same_prev a b =
      let (o, d) = r.distinct in
      let (n, p, c) = r.linked in
      record {
        distinct = d;
        linked = retarget next prev next' prev' x xs i x d c same_next same_prev a b;
      }

-- The new links when cell `i` between `before` and `after` is taken out, for all cells but `i`.
pub record TakesOut (next prev next' prev' : Link) (i before after : ℕ) : Type 0 where
  pub forth : (j : ℕ) → j ≢ i → next' j ≡ update next before (some after) j
  pub back : (j : ℕ) → j ≢ i → prev' j ≡ update prev after (some before) j

-- The new links when cell `i` goes in between `before` and `after`.
pub record PutsIn (next prev next' prev' : Link) (i before after : ℕ) : Type 0 where
  pub before_new : next' before ≡ some i
  pub new_after : next' i ≡ some after
  pub forth : (j : ℕ) → j ≢ before → j ≢ i → next' j ≡ next j
  pub after_new : prev' after ≡ some i
  pub new_before : prev' i ≡ some before
  pub back : (j : ℕ) → j ≢ after → j ≢ i → prev' j ≡ prev j

pub some-injective : {a b : ℕ} → some a ≡ some b → a ≡ b
some-injective h = cc

module _ {next prev next' prev' : Link} where
  first_out :
      (i : ℕ) (xs : List ℕ) (before after : ℕ)
      → Ring next prev (i ∷ xs)
      → prev i ≡ some before
      → next i ≡ some after
      → TakesOut next prev next' prev' i before after
      → Ring next' prev' xs
  first_out i [] before after r p n t = record { distinct = tt; linked = tt }
  first_out i (x ∷ xs) before after r p n t =
      let (o, d) = r.distinct in
      let (n1, p1, c) = r.linked in
      let (n2, p2) = Chain-last next prev x xs i c in
      let eb : last x xs ≡ before = some-injective (sym p2 ∙ p) in
      let ea : x ≡ after = some-injective (sym n1 ∙ n) in
      let apart : (j : ℕ) → j ∈ (x ∷ xs) → j ≢ i = λ j m. ne_of_in j i (x ∷ xs) m o in
      let end = last-in x xs in
      Ring-tail i x xs r (λ j m q. ground (arith, t.forth j (apart j m), q, eb))
        (λ j m. ground (arith, t.back j (apart j (ground (arith, m))), ne_of_in j x xs m d.0, ea))
        (ground (arith, t.forth (last x xs) (apart (last x xs) end), eb, ea))
        (ground (arith, t.back x (apart x (ground arith)), ea, eb))

  -- Cell `i` leaves the ring.
  pub Ring-out :
      (xs : List ℕ) (i : ℕ) (ys : List ℕ) (before after : ℕ)
      → Ring next prev (xs ++ (i ∷ ys))
      → prev i ≡ some before
      → next i ≡ some after
      → TakesOut next prev next' prev' i before after
      → Ring next' prev' (xs ++ ys)
  Ring-out xs i ys before after r p n t =
      Ring-rotate next' prev' ys xs
        (first_out i (ys ++ xs) before after (Ring-rotate next prev xs (i ∷ ys) r) p n t)

  pub last_in :
      (i y : ℕ) (ys : List ℕ) (before : ℕ)
      → Ring next prev (y ∷ ys)
      → i ∉ (y ∷ ys)
      → prev y ≡ some before
      → PutsIn next prev next' prev' i before y
      → Ring next' prev' (y ∷ ys ++ (i ∷ []))
  last_in i y ys before r out p t =
      let (n2, p2) = Chain-last next prev y ys y r.linked in
      let eb : last y ys ≡ before = some-injective (sym p2 ∙ p) in
      let apart : (j : ℕ) → j ∈ (y ∷ ys) → j ≢ i = λ j m. ne_of_in j i (y ∷ ys) m out in
      Ring-snoc y ys i r out (λ j m q. t.forth j (λ e. q (e ∙ sym eb)) (apart j m))
        (λ j m. t.back j (ne_of_in j y ys m r.distinct.0) (apart j (ground (arith, m))))
        (ap next' eb ∙ t.before_new) (t.new_before ∙ ap (λ j. some j) (sym eb)) t.new_after
        t.after_new

  -- Cell `i` goes in before cell `y`.
  pub Ring-in :
      (xs : List ℕ) (i y : ℕ) (ys : List ℕ) (before : ℕ)
      → Ring next prev (xs ++ (y ∷ ys))
      → i ∉ (xs ++ (y ∷ ys))
      → prev y ≡ some before
      → PutsIn next prev next' prev' i before y
      → Ring next' prev' (xs ++ (i ∷ y ∷ ys))
  Ring-in xs i y ys before r out p t =
      let turned : i ∉ (y ∷ ys ++ xs) =
        ground (arith, has-append i xs (y ∷ ys), has-append i (y ∷ ys) xs, out) in
      rw (← append_assoc xs (i ∷ []) (y ∷ ys)) (
        Ring-rotate next' prev' (y ∷ ys) (xs ++ (i ∷ [])) (
          rw (← append_assoc ys xs (i ∷ []))
            (last_in i y (ys ++ xs) before (Ring-rotate next prev xs (y ∷ ys) r) turned p t)))
