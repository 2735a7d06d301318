-- ===== src/Exchange/OrderBook/Shape/Founding.antt =====
-- `add` of an order whose place in the table of levels is empty, on a well-formed book.
use trading_system.Prelude.{
  ℕ, ◌+◌, ◌<◌, ◌≤◌, ◌≡◌, ◌≢◌, refl, sym, ap, ◌∙◌, none, List, [], ◌∷◌, ◌++◌, false, Returns, gives,
  Returns-bind, ok,
}
use trading_system.MemPool.Laws.{allocate-ok, live, IsValid}
use trading_system.Types.{Side, me_max_num_clients, me_max_order_ids}
use trading_system.Exchange.OrderBook.State.{
  MeOrderBook, order_at, level_at, get_order_at_price, get_priority, send_market_update,
}
use trading_system.Exchange.OrderBook.Handlers.{Incoming, rest_order}
use trading_system.Exchange.OrderBook.Shape.{Queue, cells, Sides}
use trading_system.Exchange.OrderBook.Shape.Relinking.{bare}
use trading_system.Exchange.OrderBook.Shape.UnlinkLevel.{same_end}
use trading_system.Exchange.OrderBook.Shape.Around.{queue_of}
use trading_system.Exchange.OrderBook.Shape.Sorted.{IsTraded}
use trading_system.Exchange.OrderBook.Shape.Place.{ahead, behind, ahead-behind}
use trading_system.Exchange.OrderBook.Shape.Seating.{tabled}
use trading_system.Exchange.OrderBook.Shape.Queueing.{queued}
use trading_system.Exchange.OrderBook.Shape.Opened.{Opened-Sides, level_of}
use trading_system.Exchange.OrderBook.Shape.Held.{cells-split}
use trading_system.Exchange.OrderBook.Shape.Opening.{prepared, add_order_to_price_level-Opened}

-- What `add` leaves of the book when an order opens level `l` in the side `own`.
pub record Founded (b : MeOrderBook) (a : Incoming) (left : ℕ) (s t : Side) (own : List Queue)
    (l i : ℕ) (others : List Queue) (b' : MeOrderBook) : Type 0 where
  pub front : List Queue
  pub rear : List Queue
  pub parts : front ++ rear ≡ own
  pub sides : Sides b' s t (front ++ (queue_of l (i ∷ []) ∷ rear)) others
  pub entered : bare (order_at b' i) ≡ queued b a left 1
  pub data_of : (j : ℕ) → j ≢ i → bare (order_at b' j) ≡ bare (order_at b j)

get_priority-first :
    (b : MeOrderBook) (p : ℕ) → get_order_at_price b p ≡ none → get_priority b p ≡ ok 1
unfolding get_priority
get_priority-first b p e = rw (get_priority, e) refl

-- On a well-formed book with two free cells in either pool, what is left of a buy or a sell order is
-- stored in a level of its own, if no level stands at its place in the table, which is its price
-- modulo 256, and its client and identifier are within their table and free. The level goes in
-- among the levels of its side where the prices stay sorted; the book is well formed again, the
-- other levels and orders being as they were, in the same order.
pub rest_order-Founded :
    {b : MeOrderBook} {s t : Side} (a : Incoming) (qty left : ℕ) (own others : List Queue)
    → IsTraded s
    → same_end s t ≡ false
    → Sides b s t own others
    → a.side ≡ s
    → get_order_at_price b a.price ≡ none
    → a.client_id < me_max_num_clients
    → a.client_order_id < me_max_order_ids
    → b.cid_oid_to_order a.client_id a.client_order_id ≡ none
    → IsValid b.orders_pool
    → live b.orders_pool + 2 ≤ b.orders_pool.size
    → IsValid b.orders_at_price_pool
    → live b.orders_at_price_pool + 2 ≤ b.orders_at_price_pool.size
    → Returns
        (Founded b a left s t own b.orders_at_price_pool.next_free_index
          b.orders_pool.next_free_index others)
        (rest_order b a qty left)
unfolding rest_order send_market_update
rest_order-Founded {b} {s} {t} a qty left own others traded opposed h side free_price client order
      free_id valid room levels_valid level_room =
    let i = b.orders_pool.next_free_index in
    let l = b.orders_at_price_pool.next_free_index in
    let o = queued b a left 1 in
    let (pool, e, c) = allocate-ok b.orders_pool o valid room in
    let (levels, f, d) =
      allocate-ok b.orders_at_price_pool (level_of o i) levels_valid level_room in
    let p = prepared b pool i o levels in
    let whole = ahead-behind (tabled p l) (level_at p l) (cells own) in
    let (xs, ys, same, front, rear) =
      cells-split own (ahead (tabled p l) (level_at p l) (cells own))
        (behind (tabled p l) (level_at p l) (cells own)) whole in
    rw (get_priority-first b a.price free_price, e)
      (Returns-bind
        (add_order_to_price_level-Opened b c d h.mine side free_price traded f valid.in_range
          levels_valid.in_range client order)
        λ b1 g. gives (record {
          front = xs;
          rear = ys;
          parts = same;
          sides =
              Opened-Sides free_id free_price (g _).0 xs ys others opposed (rw same h)
                (ap cells (sym same))
                (ap (λ z. z ++ (l ∷ behind (tabled p l) (level_at p l) (cells own))) (sym front)
                  ∙ ap (λ z. cells xs ++ (l ∷ z)) (sym rear))
                (g b1.updates).1 side client order;
          entered = (g b1.updates).0.entered;
          data_of = λ j n. ap bare ((g b1.updates).0.orders j n);
        }))
