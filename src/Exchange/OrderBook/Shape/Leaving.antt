-- ===== src/Exchange/OrderBook/Shape/Leaving.antt =====
-- The two sides of a book that an order has left, with its level or without.
use trading_system.Prelude.{
  ℕ, ◌≡◌, ◌≢◌, sym, ap, ◌∙◌, Option, none, some, true, false, List, [], ◌∷◌, ◌++◌, arith,
  if◌then◌else◌, update,
}
use trading_system.Links.Distinct.{◌∈◌, has-append}
use trading_system.MemPool.{read}
use trading_system.Links.Ring.{Link, Ring, Ring-same}
use trading_system.Links.Neighbours.{first, Neighbours}
use trading_system.Types.{Side}
use trading_system.Exchange.OrderBook.State.{MeOrderBook, level_at, side_head}
use trading_system.Exchange.OrderBook.Shape.{
  Queue, cells, IsQueue, Sides, next_order, prev_order, next_level, prev_level,
}
use trading_system.Exchange.OrderBook.Shape.Parts.{cells-append, AreQueues-join, AreSorted-drop}
use trading_system.Exchange.OrderBook.Shape.Unlink.{Detached}
use trading_system.Exchange.OrderBook.Shape.UnlinkLevel.{same_end}
use trading_system.Exchange.OrderBook.Shape.RemoveLevel.{LevelGone}
use trading_system.Exchange.OrderBook.Shape.Release.{Released}
use trading_system.Exchange.OrderBook.Shape.Spare.{Spares, AreQueues-Spares, AreSorted-same}
use trading_system.Exchange.OrderBook.Shape.Company.{Company-Spares, Company-IsQueue, Company-level}
use trading_system.Exchange.OrderBook.Shape.Alone.{Alone-price, Alone-Spares}
use trading_system.Exchange.OrderBook.Shape.Around.{
  queue_of, Ladder-Spares, Around, Ladder-Around, same_end_refl, same_end_swap, side_of,
  cells_apart, sides_apart,
}

module _ {b b1 b' : MeOrderBook} {s t : Side} (qs : List Queue) (l i : ℕ) (xs ys : List ℕ)
    (rs others : List Queue) (opposed : same_end s t ≡ false) where
  pub Sides-Company :
      (h : Sides b s t (qs ++ (queue_of l (xs ++ (i ∷ ys)) ∷ rs)) others)
      (m : Neighbours (next_order b) (prev_order b) xs i ys)
      → Detached b l i
          (update (next_order b) m.before (some m.after))
          (update (prev_order b) m.after (some m.before))
          b1
      → Released b1 i b'
      → first (xs ++ ys) ≢ none
      → Sides b' s t (qs ++ (queue_of l (xs ++ ys) ∷ rs)) others
  Sides-Company h m d r left =
      let a = Ladder-Around qs (queue_of l (xs ++ (i ∷ ys))) rs h.mine in
      let same_cells : cells (qs ++ (queue_of l (xs ++ ys) ∷ rs))
          ≡ cells (qs ++ (queue_of l (xs ++ (i ∷ ys)) ∷ rs)) =
        cells-append qs (queue_of l (xs ++ ys) ∷ rs)
        ∙ sym (cells-append qs (queue_of l (xs ++ (i ∷ ys)) ∷ rs)) in
      let heads : (u : Side) → side_head b' u ≡ side_head b u =
        λ u. r.heads u ∙ ap (λ x. side_head x u) d.rest in
      let level = Company-level a.middle m d r in
      let spare : (q : Queue) → IsQueue b s q → l ≢ q.cell → Spares b b' q =
        λ q v n. Company-Spares a.middle m d r q v n in
      record {
        mine = record {
          best = heads s ∙ h.mine.best ∙ ap first (sym same_cells);
          ring = rw same_cells (
              Ring-same (cells (qs ++ (queue_of l (xs ++ (i ∷ ys)) ∷ rs))) h.mine.ring
                (λ k _. (level k).0) (λ k _. (level k).1));
          queues =
              AreQueues-join b' s qs (queue_of l (xs ++ ys) ∷ rs)
                (AreQueues-Spares qs a.front λ q v k.
                  spare q v
                    (a.apart q.cell (ground (arith, has-append q.cell (cells qs) (cells rs), k))))
                (
                  Company-IsQueue a.middle m d r left,
                  AreQueues-Spares rs a.back λ q v k.
                      spare q v (
                        a.apart q.cell
                          (ground (arith, has-append q.cell (cells qs) (cells rs), k))),
                );
          sorted = rw same_cells (
              AreSorted-same b b' s (cells (qs ++ (queue_of l (xs ++ (i ∷ ys)) ∷ rs)))
                (λ k. (level k).2) h.mine.sorted);
        };
        theirs =
            Ladder-Spares others h.theirs (heads t) (λ k _. (level k).0) (λ k _. (level k).1)
              (λ k. (level k).2)
              (λ q v _. Company-Spares a.middle m d r q v (sides_apart opposed a.middle v));
      }

-- The side without its level `l`, whose only order was `i`.
module _ {b b1 b' : MeOrderBook} {s t : Side} {n p : Link} {best : Option ℕ} (qs : List Queue)
    (l i : ℕ) (rs others : List Queue) (opposed : same_end s t ≡ false)
    (h : Sides b s t (qs ++ (queue_of l (i ∷ []) ∷ rs)) others) (d : LevelGone b l n p best b1)
    (r : Released b1 i b') where
  gone : Around b s qs (queue_of l (i ∷ [])) rs
  gone = Ladder-Around qs (queue_of l (i ∷ [])) rs h.mine

  own_end : same_end s (level_at b l).side ≡ true
  own_end = ap (same_end s) gone.middle.side ∙ same_end_refl s

  other_end : same_end t (level_at b l).side ≡ false
  other_end = ap (same_end t) gone.middle.side ∙ same_end_swap s t ∙ opposed

  pub next_after : (k : ℕ) → k ≢ l → next_level b' k ≡ n k
  next_after k o = ap (λ v. v.next) (ap (λ x. read x k) r.levels) ∙ d.forth k o

  pub prev_after : (k : ℕ) → k ≢ l → prev_level b' k ≡ p k
  prev_after k o = ap (λ v. v.prev) (ap (λ x. read x k) r.levels) ∙ d.back k o

  pub Sides-Alone :
      best ≡ first (cells qs ++ cells rs)
      → Ring (next_level b') (prev_level b') (cells qs ++ cells rs)
      → ((k : ℕ) → k ∈ cells others → n k ≡ next_level b k)
      → ((k : ℕ) → k ∈ cells others → p k ≡ prev_level b k)
      → Sides b' s t (qs ++ rs) others
  Sides-Alone e g same_next same_prev =
      let spare : (q : Queue) → IsQueue b s q → l ≢ q.cell → Spares b b' q =
        λ q v n. Alone-Spares gone.middle d r q v n in
      let prices = Alone-price gone.middle d r in
      let split = cells-append qs rs in
      let off : (k : ℕ) → k ∈ cells others → k ≢ l =
        λ k m. cells_apart b opposed gone.middle.side (side_of b others h.theirs.queues k m) in
      record {
        mine = record {
          best =
              r.heads s
              ∙ d.heads s
              ∙ ap (λ c. if c then best else side_head b s) own_end
              ∙ e
              ∙ ap first (sym split);
          ring = rw split g;
          queues =
              AreQueues-join b' s qs rs
                (AreQueues-Spares qs gone.front λ q v k.
                  spare q v (
                    gone.apart q.cell (ground (arith, has-append q.cell (cells qs) (cells rs), k))))
                (AreQueues-Spares rs gone.back λ q v k.
                  spare q v (
                    gone.apart q.cell
                      (ground (arith, has-append q.cell (cells qs) (cells rs), k))));
          sorted = rw split (
              AreSorted-same b b' s (cells qs ++ cells rs) prices (
                AreSorted-drop b s (cells qs) l (cells rs)
                  (rw (← cells-append qs (queue_of l (i ∷ []) ∷ rs)) h.mine.sorted)));
        };
        theirs =
            Ladder-Spares others h.theirs
              (r.heads t ∙ d.heads t ∙ ap (λ c. if c then best else side_head b t) other_end)
              (λ k m. next_after k (off k m) ∙ same_next k m)
              (λ k m. prev_after k (off k m) ∙ same_prev k m) prices
              (λ q v _. Alone-Spares gone.middle d r q v (sides_apart opposed gone.middle v));
      }
