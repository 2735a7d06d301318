-- ===== src/Exchange/OrderBook/Shape/Enlarged.antt =====
-- The two sides of a book in which an order has joined the others of its price.
use trading_system.Prelude.{
  ℕ, ◌<◌, ◌≡◌, ◌≢◌, sym, ap, ◌∙◌, none, some, List, [], ◌∷◌, ◌++◌, arith, false,
}
use trading_system.MemPool.{read}
use trading_system.Links.Distinct.{◌∈◌, has-append}
use trading_system.Links.Ring.{Ring-same}
use trading_system.Links.Neighbours.{first}
use trading_system.Types.{Side, me_max_num_clients, me_max_order_ids}
use trading_system.Exchange.OrderBook.State.{MeOrder, MeOrderBook, level_at}
use trading_system.Exchange.OrderBook.Shape.{Queue, cells, IsQueue, Sides, prev_order, price_of}
use trading_system.Exchange.OrderBook.Shape.Parts.{cells-append, AreQueues-join}
use trading_system.Exchange.OrderBook.Shape.Spare.{Spares, AreQueues-Spares, AreSorted-same}
use trading_system.Exchange.OrderBook.Shape.UnlinkLevel.{same_end}
use trading_system.Exchange.OrderBook.Shape.Around.{
  queue_of, Ladder-Spares, Ladder-Around, sides_apart,
}
use trading_system.Exchange.OrderBook.Shape.Entered.{Entered, Entered-Spares, Entered-IsQueue}

-- The two sides of the book with the order behind the others of its level.
pub Entered-Sides :
    {b b' : MeOrderBook} {s t : Side} {o : MeOrder} (qs : List Queue) (l x i before : ℕ)
    (xs : List ℕ) (rs others : List Queue)
    → same_end s t ≡ false
    → Sides b s t (qs ++ (queue_of l (x ∷ xs) ∷ rs)) others
    → b.cid_oid_to_order o.client_id o.client_order_id ≡ none
    → prev_order b x ≡ some before
    → Entered b o i before x b'
    → o.side ≡ s
    → o.price ≡ price_of b l
    → o.client_id < me_max_num_clients
    → o.client_order_id < me_max_order_ids
    → Sides b' s t (qs ++ (queue_of l (x ∷ xs ++ (i ∷ [])) ∷ rs)) others
Entered-Sides {b} {b'} {s} {t} qs l x i before xs rs others opposed h free_id p d side price client
      order =
    let a = Ladder-Around qs (queue_of l (x ∷ xs)) rs h.mine in
    let old = qs ++ (queue_of l (x ∷ xs) ∷ rs) in
    let new = qs ++ (queue_of l (x ∷ xs ++ (i ∷ [])) ∷ rs) in
    let same_cells : cells new ≡ cells old =
      cells-append qs (queue_of l (x ∷ xs ++ (i ∷ [])) ∷ rs)
      ∙ sym (cells-append qs (queue_of l (x ∷ xs) ∷ rs)) in
    let level : (k : ℕ) → level_at b' k ≡ level_at b k = λ k. ap (λ y. read y k) d.levels in
    let spare : (u : Side) (q : Queue) → IsQueue b u q → l ≢ q.cell → Spares b b' q =
      λ u q v n. Entered-Spares a.middle free_id p d q v n in
    let beside : (q : Queue) → q.cell ∈ (cells qs ++ cells rs) → l ≢ q.cell =
      λ q m. a.apart q.cell m in
    record {
      mine = record {
        best = d.heads s ∙ h.mine.best ∙ ap first (sym same_cells);
        ring = rw same_cells (
            Ring-same (cells old) h.mine.ring (λ k _. ap (λ v. v.next) (level k))
              (λ k _. ap (λ v. v.prev) (level k)));
        queues =
            AreQueues-join b' s qs (queue_of l (x ∷ xs ++ (i ∷ [])) ∷ rs)
              (AreQueues-Spares qs a.front λ q v m.
                spare s q v (beside q (ground (arith, has-append q.cell (cells qs) (cells rs), m))))
              (
                Entered-IsQueue a.middle free_id p d side price client order,
                AreQueues-Spares rs a.back λ q v m.
                    spare s q v
                      (beside q (ground (arith, has-append q.cell (cells qs) (cells rs), m))),
              );
        sorted =
            rw same_cells
              (AreSorted-same b b' s (cells old) (λ k. ap (λ v. v.price) (level k)) h.mine.sorted);
      };
      theirs =
          Ladder-Spares others h.theirs (d.heads t) (λ k _. ap (λ v. v.next) (level k))
            (λ k _. ap (λ v. v.prev) (level k)) (λ k. ap (λ v. v.price) (level k))
            (λ q v _. spare t q v (sides_apart opposed a.middle v));
    }
