-- ===== src/Exchange/OrderBook/Shape/Parts.antt =====
-- A side of the book around one of its levels.
use trading_system.Prelude.{ℕ, ◌≡◌, ◌≢◌, refl, sym, ap, List, [], ◌∷◌, ◌++◌, arith}
use trading_system.Links.Distinct.{◌∈◌, Distinct, Distinct-rotate, has-append, ne_of_in}
use trading_system.Types.{Side}
use trading_system.Exchange.OrderBook.State.{MeOrderBook}
use trading_system.Exchange.OrderBook.Shape.{
  Queue, cells, IsQueue, AreQueues, AreWorse, AreSorted, price_of,
}

pub cells-append : (qs rs : List Queue) → cells (qs ++ rs) ≡ cells qs ++ cells rs
cells-append [] rs = refl
cells-append (q ∷ qs) rs = ap (λ ls. q.cell ∷ ls) (cells-append qs rs)

module _ (b : MeOrderBook) (s : Side) where
  pub AreQueues-at :
      (qs : List Queue) (q : Queue) (rs : List Queue)
      → AreQueues b s (qs ++ (q ∷ rs))
      → AreQueues b s qs × IsQueue b s q × AreQueues b s rs
  AreQueues-at [] q rs (w, v) = (tt, w, v)
  AreQueues-at (p ∷ qs) q rs (w, v) = let (x, y, z) = AreQueues-at qs q rs v in ((w, x), y, z)

  pub AreQueues-join :
      (qs rs : List Queue) → AreQueues b s qs → AreQueues b s rs → AreQueues b s (qs ++ rs)
  AreQueues-join [] rs tt v = v
  AreQueues-join (p ∷ qs) rs (w, v) x = (w, AreQueues-join qs rs v x)

  AreWorse-drop :
      (p : ℕ) (ls : List ℕ) (l : ℕ) (ms : List ℕ)
      → AreWorse b s p (ls ++ (l ∷ ms))
      → AreWorse b s p (ls ++ ms)
  AreWorse-drop p [] l ms (w, v) = v
  AreWorse-drop p (k ∷ ls) l ms (w, v) = (w, AreWorse-drop p ls l ms v)

  -- Without one of its levels a side is still sorted.
  pub AreSorted-drop :
      (ls : List ℕ) (l : ℕ) (ms : List ℕ)
      → AreSorted b s (ls ++ (l ∷ ms))
      → AreSorted b s (ls ++ ms)
  AreSorted-drop [] l ms (w, v) = v
  AreSorted-drop (k ∷ ls) l ms (w, v) =
      (AreWorse-drop (price_of b k) ls l ms w, AreSorted-drop ls l ms v)

-- The other levels are other cells.
pub others_apart :
    (ls : List ℕ) (l : ℕ) (ms : List ℕ)
    → Distinct (ls ++ (l ∷ ms))
    → (j : ℕ) → j ∈ (ls ++ ms)
    → l ≢ j
others_apart ls l ms d j m e =
    let (o, _) = Distinct-rotate ls (l ∷ ms) d in
    ne_of_in j l (ls ++ ms) m (ground (arith, has-append l ls ms, has-append l ms ls, o)) (sym e)
