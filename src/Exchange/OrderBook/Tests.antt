-- ===== src/Exchange/OrderBook/Tests.antt =====
-- Runs of the order book over small pools, and a book with one order.
use trading_system.Prelude.{
  ℕ, ◌≡◌, refl, List, [], ◌∷◌, map, none, some, Result, ok, ◌>>=◌, arith, false,
}
use trading_system.Types.{buy, sell}
use trading_system.Messages.{MeClientResponse, MeMarketUpdate}
use trading_system.Exchange.OrderBook.State.{
  MeOrder, MeOrdersAtPrice, MeOrderBook, new_book_sized, send_client_response,
  generate_next_order_id, get_priority, set_order, set_order_at_price, set_level, set_side_head,
  send_market_update,
}
use trading_system.Exchange.OrderBook.Handlers.{Incoming, add, cancel, match, match_loop}
use trading_system.MemPool.{new_pool, allocate, deallocate}
use trading_system.Exchange.OrderBook.Levels.{add_order_to_price_level}
use trading_system.Exchange.OrderBook.Remove.{remove_order}
use trading_system.Exchange.OrderBook.Matching.Removal.{OrderLinked}
use trading_system.Exchange.OrderBook.Matching.Trade.{Traded}
use trading_system.Exchange.OrderBook.Matching.Cancel.{Cancelled}
use trading_system.Exchange.OrderBook.Matching.Returning.{match-ok, cancel-ok}

-- Three sells at two prices, then a buy that takes the better one and part of the next.
crossing : Result MeOrderBook
crossing = do
  b0 ← new_book_sized 4 8 3
  b1 ← add b0 1 10 sell 101 5
  b2 ← add b1 1 11 sell 100 4
  b3 ← add b2 2 12 sell 101 6
  add b3 3 13 buy 101 11

abbrev quantities : Result MeOrderBook → Result (List ℕ × List ℕ × List ℕ)
quantities r = r >>= λ b. ok (
  map (λ (x : MeClientResponse). x.exec_qty) b.responses,
  map (λ (x : MeClientResponse). x.left_qty) b.responses,
  map (λ (x : MeMarketUpdate). x.qty) b.updates,
)

crossing-quantities :
    quantities crossing
    ≡ ok (
      0 ∷ 0 ∷ 0 ∷ 0 ∷ 4 ∷ 4 ∷ 5 ∷ 5 ∷ 2 ∷ 2 ∷ [],
      5 ∷ 4 ∷ 6 ∷ 11 ∷ 7 ∷ 0 ∷ 2 ∷ 0 ∷ 0 ∷ 4 ∷ [],
      5 ∷ 4 ∷ 6 ∷ 4 ∷ 0 ∷ 5 ∷ 0 ∷ 2 ∷ 4 ∷ [],
    )
unfolding crossing new_book_sized add new_pool match_loop send_client_response
    generate_next_order_id get_priority allocate add_order_to_price_level set_order
    set_order_at_price set_level set_side_head send_market_update match remove_order deallocate
crossing-quantities = refl

-- A sell of five at 100, alone on its level and on its side.
abbrev resting : MeOrder
resting = record {
  ticker_id = 3;
  client_id = 1;
  client_order_id = 10;
  market_order_id = 1;
  side = sell;
  price = 100;
  qty = 5;
  priority = 1;
  next_order = some 0;
  prev_order = some 0;
}

abbrev one_level : MeOrdersAtPrice
one_level = record { side = sell; price = 100; orders_head = some 0; next = some 0; prev = some 0 }

abbrev one_order : MeOrderBook
one_order = record {
  ticker = 3;
  cid_oid_to_order = λ _ _. some 0;
  orders_at_price_pool = record {
    cells = λ _. record { object = one_level; is_free = false };
    size = 2;
    next_free_index = 1;
  };
  bids_by_price = none;
  asks_by_price = some 0;
  price_to_orders_at_price = λ _. some 0;
  orders_pool = record {
    cells = λ _. record { object = resting; is_free = false };
    size = 2;
    next_free_index = 1;
  };
  next_order_id = 2;
  responses = [];
  updates = [];
}

abbrev buyer : Incoming
buyer = record { client_id = 2; client_order_id = 20; market_order_id = 2; side = buy; price = 101 }

one_order-OrderLinked : OrderLinked one_order 0
one_order-OrderLinked = record {
  in_range = omega arith;
  in_use = refl;
  client = omega arith;
  order = omega arith;
  before = 0;
  after = 0;
  prev = refl;
  next = refl;
  level = 0;
  at_price = refl;
  level_linked = record {
    in_range = omega arith;
    in_use = refl;
    before = 0;
    after = 0;
    prev = refl;
    next = refl;
  };
}

match-ok_example :
    (r : ℕ × MeOrderBook) × (match one_order buyer 0 7 ≡ ok r) × Traded one_order buyer 0 7 r
match-ok_example = match-ok one_order buyer 0 7 one_order-OrderLinked

cancel-ok_example :
    (b' : MeOrderBook) × (cancel one_order 1 10 ≡ ok b') × Cancelled one_order 1 10 0 b'
cancel-ok_example = cancel-ok one_order 1 10 0 refl one_order-OrderLinked
