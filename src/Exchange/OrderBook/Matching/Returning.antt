-- ===== src/Exchange/OrderBook/Matching/Returning.antt =====
-- `match` and `cancel` return, with all that they do, when the order they are about is linked in.
use trading_system.Prelude.{ℕ, ◌≡◌, refl, inl, inr, some, List, ok, arith, Bool-cases, ◌==◌}
use trading_system.Messages.{MarketUpdateType, MeClientResponse, MeMarketUpdate}
use trading_system.Exchange.OrderBook.State.{
  MeOrderBook, order_at, set_order, send_client_response, send_market_update,
}
use trading_system.Exchange.OrderBook.Handlers.{
  Incoming, match, cancel, find_order, cancelled_response, order_update,
}
use trading_system.Exchange.OrderBook.Matching.Removal.{
  OrderLinked, remove_order-ok, remove_order-Returns,
}
use trading_system.Prelude.{Returns, gives, Returns-bind, Returns-Ensures}
use trading_system.Exchange.OrderBook.Matching.Trade.{
  Traded, traded, match-Traded, order_at-set_order_self,
}
use trading_system.Exchange.OrderBook.Matching.Cancel.{Cancelled}

-- Another quantity, and what was sent, do not touch the links.
OrderLinked-traded :
    (b : MeOrderBook) (i left : ℕ) (rs : List MeClientResponse) (us : List MeMarketUpdate)
    → OrderLinked b i
    → OrderLinked (record (set_order b i (traded b i left)) { responses = rs; updates = us }) i
unfolding set_order
OrderLinked-traded b i left rs us w = record {
  in_range = w.in_range;
  in_use = ground (arith, w.in_use);
  client = ground (arith, w.client);
  order = ground (arith, w.order);
  before = w.before;
  after = w.after;
  prev = ground (arith, w.prev);
  next = ground (arith, w.next);
  level = w.level;
  at_price = ground (arith, w.at_price);
  level_linked = record {
    in_range = w.level_linked.in_range;
    in_use = w.level_linked.in_use;
    before = w.level_linked.before;
    after = w.level_linked.after;
    prev = w.level_linked.prev;
    next = w.level_linked.next;
  };
}

match-Returns :
    (b : MeOrderBook) (a : Incoming) (i left : ℕ)
    → OrderLinked b i
    → Returns (λ r. Unit {0}) (match b a i left)
unfolding match send_client_response send_market_update set_order
match-Returns b a i left w = elim (Bool-cases ((traded b i left).qty == 0)) [
  | inl e ↦
      rw (order_at-set_order_self b i (traded b i left), e)
        (Returns-bind (remove_order-Returns _ i (OrderLinked-traded b i left _ _ w))
          λ b5 u. gives tt)
  | inr e ↦ rw (order_at-set_order_self b i (traded b i left), e) (gives tt)
]

-- With a resting order that is linked into the book, `match` returns: the smaller of the two quantities
-- trades at the price of the resting order. Both clients are told so, each with its own identifiers and
-- what is left of its order, and the market is told of the trade and of what is left of the resting
-- order. That order stays with the rest of its quantity if it is larger; else its cell, and no other,
-- is freed.
pub match-ok :
    (b : MeOrderBook) (a : Incoming) (i left : ℕ)
    → OrderLinked b i
    → (r : ℕ × MeOrderBook) × (match b a i left ≡ ok r) × Traded b a i left r
match-ok b a i left w = Returns-Ensures (match-Returns b a i left w) (match-Traded b a i left)

-- A cancel of an order that is linked into the book returns: the cell of the order, and no other, is
-- freed; the client gets the order's market number, side, price and open quantity, and the market a
-- cancel with the same and the priority.
pub cancel-ok :
    (b : MeOrderBook) (client_id order_id i : ℕ)
    → find_order b client_id order_id ≡ some i
    → OrderLinked b i
    → (b' : MeOrderBook) × (cancel b client_id order_id ≡ ok b')
      × Cancelled b client_id order_id i b'
unfolding cancel send_client_response send_market_update
cancel-ok b client_id order_id i found w =
    let (b1, e, r) = remove_order-ok b i w in
    (
      send_market_update
          (send_client_response b1 (cancelled_response b1.ticker client_id order_id (order_at b i)))
          (order_update MarketUpdateType.cancel b1.ticker (order_at b i)),
      rw (found, e, cancel) refl,
      record {
        responses = rw (r.responses, r.ticker) refl;
        updates = rw (r.updates, r.ticker) refl;
        freed = r.freed;
        others = r.others;
        one_less = r.one_less;
        next_order_id = r.next_order_id;
      },
    )
