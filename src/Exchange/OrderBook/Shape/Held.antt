-- ===== src/Exchange/OrderBook/Shape/Held.antt =====
-- The levels of a list: its parts, and the cells that they hold.
use trading_system.Prelude.{
  ℕ, ◌<◌, ◌≡◌, ◌≢◌, refl, sym, ap, ◌∙◌, some, List, [], ◌∷◌, ◌++◌, arith, ◌==◌, true, false,
  Bool-cases, inl, inr,
}
use trading_system.Links.Distinct.{◌∈◌}
use trading_system.Types.{Side}
use trading_system.Exchange.OrderBook.State.{MeOrderBook, get_order_at_price}
use trading_system.Exchange.OrderBook.Shape.{Queue, cells, AreQueues, price_of}

-- A list of levels whose cells are two lists is two lists of levels.
pub cells-split :
    (qs : List Queue) (ls ms : List ℕ)
    → ls ++ ms ≡ cells qs
    → (xs : List Queue) × (ys : List Queue) × (xs ++ ys ≡ qs) × (cells xs ≡ ls) × (cells ys ≡ ms)
cells-split qs [] ms e = ([], qs, refl, refl, sym e)
cells-split [] (l ∷ ls) ms e = cc
cells-split (q ∷ qs) (l ∷ ls) ms e =
    let same : l ≡ q.cell = cc in
    let rest : ls ++ ms ≡ cells qs = cc in
    let (xs, ys, f, g, h) = cells-split qs ls ms rest in
    (q ∷ xs, ys, ap (λ z. q ∷ z) f, ap (λ z. q.cell ∷ z) g ∙ ap (λ z. z ∷ ls) (sym same), h)

pub AreQueues-parts :
    (b : MeOrderBook) (s : Side) (xs ys : List Queue)
    → AreQueues b s (xs ++ ys)
    → AreQueues b s xs × AreQueues b s ys
AreQueues-parts b s [] ys w = (tt, w)
AreQueues-parts b s (x ∷ xs) ys (v, w) = let (p, q) = AreQueues-parts b s xs ys w in ((v, p), q)

-- A level of the list is in use, and found at its price.
pub record IsHeld (b : MeOrderBook) (k : ℕ) : Type 0 where
  pub in_use : (b.orders_at_price_pool.cells k).is_free ≡ false
  pub in_range : k < b.orders_at_price_pool.size
  pub at_price : get_order_at_price b (price_of b k) ≡ some k

pub cells-IsHeld :
    (b : MeOrderBook) (t : Side) (qs : List Queue)
    → AreQueues b t qs
    → (k : ℕ) → k ∈ cells qs
    → IsHeld b k
cells-IsHeld b t [] w k m = cc
cells-IsHeld b t (q ∷ qs) (v, w) k m = elim (Bool-cases (k == q.cell)) [
  | inl e ↦
      let same : k ≡ q.cell = ground arith in
      rw same (record { in_use = v.in_use; in_range = v.in_range; at_price = v.at_price })
  | inr e ↦ cells-IsHeld b t qs w k (ground (arith, e, m))
]

pub free_ne :
    (b : MeOrderBook) (t : Side) (qs : List Queue) (l : ℕ)
    → AreQueues b t qs
    → (b.orders_at_price_pool.cells l).is_free ≡ true
    → (k : ℕ) → k ∈ cells qs
    → k ≢ l
free_ne b t qs l w f k m e =
    let taken = (cells-IsHeld b t qs w k m).in_use in
    let free = ap (λ j. (b.orders_at_price_pool.cells j).is_free) e ∙ f in cc
