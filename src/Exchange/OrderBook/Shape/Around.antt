-- ===== src/Exchange/OrderBook/Shape/Around.antt =====
-- A side of the book around one of its levels, and the two sides together.
use trading_system.Prelude.{
  ℕ, ◌≡◌, ◌≢◌, refl, sym, ap, ◌∙◌, none, some, true, false, List, [], ◌∷◌, ◌++◌, arith, ◌==◌, inl,
  inr, Bool-cases,
}
use trading_system.Links.Distinct.{◌∈◌, ◌∉◌}
use trading_system.Links.Ring.{Ring, Ring-same}
use trading_system.Links.Neighbours.{first}
use trading_system.Types.{Side}
use trading_system.Exchange.OrderBook.State.{MeOrderBook, level_at, side_head}
use trading_system.Exchange.OrderBook.Shape.{
  Queue, cells, IsQueue, AreQueues, Ladder, price_of, next_level, prev_level,
}
use trading_system.Exchange.OrderBook.Shape.Parts.{cells-append, AreQueues-at, others_apart}
use trading_system.Exchange.OrderBook.Shape.UnlinkLevel.{same_end, best_without}
use trading_system.Exchange.OrderBook.Shape.Spare.{Spares, AreQueues-Spares, AreSorted-same}

abbrev pub queue_of : ℕ → List ℕ → Queue
queue_of l is = record { cell = l; orders = is }

-- The levels of a side when only `orders` are left in level `l`, which goes with its last order.
abbrev pub remaining : List Queue → ℕ → List ℕ → List Queue → List Queue
remaining qs l [] rs = qs ++ rs
remaining qs l (i ∷ is) rs = qs ++ (queue_of l (i ∷ is) ∷ rs)

-- A side that a change spares, its best level and the links of its levels included.
pub Ladder-Spares :
    {b b' : MeOrderBook} {t : Side} (qs : List Queue)
    → Ladder b t qs
    → side_head b' t ≡ side_head b t
    → ((k : ℕ) → k ∈ cells qs → next_level b' k ≡ next_level b k)
    → ((k : ℕ) → k ∈ cells qs → prev_level b' k ≡ prev_level b k)
    → ((k : ℕ) → price_of b' k ≡ price_of b k)
    → ((q : Queue) → IsQueue b t q → q.cell ∈ cells qs → Spares b b' q)
    → Ladder b' t qs
Ladder-Spares {b} {b'} {t} qs w h e f g x = record {
  best = h ∙ w.best;
  ring = Ring-same (cells qs) w.ring e f;
  queues = AreQueues-Spares qs w.queues x;
  sorted = AreSorted-same b b' t (cells qs) g w.sorted;
}

-- The side in the middle.
pub record Around (b : MeOrderBook) (s : Side) (qs : List Queue) (q : Queue) (rs : List Queue)
    : Type 0 where
  pub front : AreQueues b s qs
  pub middle : IsQueue b s q
  pub back : AreQueues b s rs
  pub ring : Ring (next_level b) (prev_level b) (cells qs ++ (q.cell ∷ cells rs))
  pub apart : (j : ℕ) → j ∈ (cells qs ++ cells rs) → q.cell ≢ j

pub Ladder-Around :
    {b : MeOrderBook} {s : Side} (qs : List Queue) (q : Queue) (rs : List Queue)
    → Ladder b s (qs ++ (q ∷ rs))
    → Around b s qs q rs
Ladder-Around {b} {s} qs q rs w =
    let (x, y, z) = AreQueues-at b s qs q rs w.queues in
    let g : Ring (next_level b) (prev_level b) (cells qs ++ (q.cell ∷ cells rs)) =
      rw (← cells-append qs (q ∷ rs)) w.ring in
    record {
      front = x;
      middle = y;
      back = z;
      ring = g;
      apart = others_apart (cells qs) q.cell (cells rs) g.distinct;
    }

pub same_end_refl : (s : Side) → same_end s s ≡ true
same_end_refl s = ground arith

pub same_end_swap : (s t : Side) → same_end t s ≡ same_end s t
same_end_swap s t = ground arith

pub side_of :
    (b : MeOrderBook) {t : Side} (qs : List Queue)
    → AreQueues b t qs
    → (k : ℕ) → k ∈ cells qs
    → (level_at b k).side ≡ t
side_of b [] w k m = cc
side_of b {t} (q ∷ qs) (v, w) k m = elim (Bool-cases (k == q.cell)) [
  | inl e ↦ let same : k ≡ q.cell = ground arith in ap (λ x. (level_at b x).side) same ∙ v.side
  | inr e ↦ side_of b qs w k (ground (arith, e, m))
]

-- Levels of different sides are different cells.
pub cells_apart :
    (b : MeOrderBook) {s t : Side} {k l : ℕ}
    → same_end s t ≡ false
    → (level_at b l).side ≡ s
    → (level_at b k).side ≡ t
    → k ≢ l
cells_apart b {s} {t} o v w e =
    let sides : s ≡ t = sym v ∙ ap (λ x. (level_at b x).side) (sym e) ∙ w in
    let same : same_end s t ≡ true = ap (same_end s) (sym sides) ∙ same_end_refl s in cc

-- The levels of the two sides are apart.
pub sides_apart :
    {b : MeOrderBook} {s t : Side} {q r : Queue}
    → same_end s t ≡ false
    → IsQueue b s q
    → IsQueue b t r
    → q.cell ≢ r.cell
sides_apart {b} o w v e = cells_apart b o w.side v.side (sym e)

-- The best level when one leaves.
pub best_without-first :
    (ls : List ℕ) (l after : ℕ) (ms : List ℕ)
    → l ∉ (ls ++ ms)
    → (ls ≡ [] → first ms ≡ some after)
    → best_without (first (ls ++ (l ∷ ms))) l (some after) ≡ first (ls ++ ms)
best_without-first [] l after ms o f = ground (arith, f refl)
best_without-first (k ∷ ls) l after ms o f = ground (arith, o)

pub no-append : (xs ys : List ℕ) → first (xs ++ ys) ≡ none → (xs ≡ []) × (ys ≡ [])
no-append [] [] e = (refl, refl)
no-append [] (y ∷ ys) e = cc
no-append (x ∷ xs) ys e = cc
