-- ===== src/Exchange/OrderBook/Shape/Withdrawal.antt =====
-- `cancel` on a well-formed book.
use trading_system.Prelude.{
  ℕ, ◌≡◌, refl, some, false, List, ◌∷◌, ◌++◌, arith, Returns, gives, Returns-bind,
}
use trading_system.Types.{Side}
use trading_system.Links.Distinct.{has-append}
use trading_system.Exchange.OrderBook.State.{
  MeOrderBook, order_at, send_client_response, send_market_update,
}
use trading_system.Exchange.OrderBook.Handlers.{cancel, find_order}
use trading_system.Exchange.OrderBook.Shape.{Queue, IsOrder, Sides}
use trading_system.Exchange.OrderBook.Shape.UnlinkLevel.{same_end}
use trading_system.Exchange.OrderBook.Shape.Around.{queue_of, remaining, Ladder-Around}
use trading_system.Exchange.OrderBook.Shape.Removal.{Leaves, remove_order-Sides}
use trading_system.Exchange.OrderBook.Shape.Requantify.{Sides-Requantified}

find_order-IsOrder :
    {b : MeOrderBook} {s : Side} {p i : ℕ}
    → IsOrder b s p i
    → find_order b (order_at b i).client_id (order_at b i).client_order_id ≡ some i
find_order-IsOrder w = ground (arith, w.client, w.order, w.registered)

-- A cancel of an order that rests in a well-formed book, by its client and its identifier, finds that
-- order and returns: the order alone leaves its level, the level too when it was the last one there, and the
-- book is well formed again.
pub cancel-Sides :
    {b : MeOrderBook} {s t : Side} (qs : List Queue) (l i : ℕ) (xs ys : List ℕ)
    (rs others : List Queue)
    → same_end s t ≡ false
    → Sides b s t (qs ++ (queue_of l (xs ++ (i ∷ ys)) ∷ rs)) others
    → Returns
        (Leaves b s t (remaining qs l (xs ++ ys) rs) others)
        (cancel b (order_at b i).client_id (order_at b i).client_order_id)
unfolding cancel send_client_response send_market_update
cancel-Sides {b} qs l i xs ys rs others o h =
    let q = (Ladder-Around qs (queue_of l (xs ++ (i ∷ ys))) rs h.mine).middle in
    let found = find_order-IsOrder (q.each i (ground (arith, has-append i xs (i ∷ ys)))) in
    rw (cancel, found)
      (Returns-bind (remove_order-Sides qs l i xs ys rs others o h) λ b1 r. gives (record {
        sides =
            Sides-Requantified
              (record {
                orders = λ j. refl;
                used = λ j. refl;
                size = refl;
                levels = refl;
                heads = λ u. refl;
                table = refl;
                registry = refl;
              })
              r.sides;
        data_of = r.data_of;
      }))
