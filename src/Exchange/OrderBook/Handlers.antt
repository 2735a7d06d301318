-- ===== src/Exchange/OrderBook/Handlers.antt =====
-- `add`, `cancel`, `checkForMatch` and `match`.
use trading_system.Prelude.{
  ℕ, zero, suc, ◌+◌, ◌-◌, Bool, true, false, ◌||◌, not, Option, none, some, Result, ok, err, ◌>>=◌,
  deref, out_of_fuel, leb, ltb, ◌==◌, if◌then◌else◌, min,
}
use trading_system.Types.{
  Side, side_invalid, is_buy, is_sell, me_max_num_clients, me_max_order_ids, order_id_invalid,
  price_invalid, qty_invalid, priority_invalid,
}
use trading_system.Messages.{ClientResponseType, MeClientResponse, MarketUpdateType, MeMarketUpdate}
use trading_system.MemPool.{allocate}
use trading_system.Exchange.OrderBook.State.{
  MeOrder, MeOrderBook, order_at, level_at, set_order, send_client_response, send_market_update,
  generate_next_order_id, get_priority,
}
use trading_system.Exchange.OrderBook.Levels.{add_order_to_price_level}
use trading_system.Exchange.OrderBook.Remove.{remove_order}

-- What an incoming request carries through the matching.
pub record Incoming : Type 0 where
  pub client_id : ℕ
  pub client_order_id : ℕ
  pub market_order_id : ℕ
  pub side : Side
  pub price : ℕ

-- The answer to the client of the aggressive order.
abbrev pub aggressor_fill : ℕ → Incoming → MeOrder → ℕ → ℕ → MeClientResponse
aggressor_fill ticker a o filled left = record {
  type = ClientResponseType.filled;
  client_id = a.client_id;
  ticker_id = ticker;
  client_order_id = a.client_order_id;
  market_order_id = a.market_order_id;
  side = a.side;
  price = o.price;
  exec_qty = filled;
  left_qty = left;
}

-- The answer to the client of the passive order.
abbrev pub passive_fill : ℕ → MeOrder → ℕ → MeClientResponse
passive_fill ticker o filled = record {
  type = ClientResponseType.filled;
  client_id = o.client_id;
  ticker_id = ticker;
  client_order_id = o.client_order_id;
  market_order_id = o.market_order_id;
  side = o.side;
  price = o.price;
  exec_qty = filled;
  left_qty = o.qty;
}

abbrev pub trade_update : ℕ → Side → MeOrder → ℕ → MeMarketUpdate
trade_update ticker side o filled = record {
  type = MarketUpdateType.trade;
  order_id = order_id_invalid;
  ticker_id = ticker;
  side = side;
  price = o.price;
  qty = filled;
  priority = priority_invalid;
}

-- A market update about the resting order `o`.
abbrev pub order_update : MarketUpdateType → ℕ → MeOrder → MeMarketUpdate
order_update t ticker o = record {
  type = t;
  order_id = o.market_order_id;
  ticker_id = ticker;
  side = o.side;
  price = o.price;
  qty = o.qty;
  priority = o.priority;
}

-- `match`: order `i` trades against the incoming one, of which `left` is open. The new `left`,
-- and the book.
unfoldable pub match : MeOrderBook → Incoming → ℕ → ℕ → Result (ℕ × MeOrderBook)
match b a i left = do
  let filled = min (order_at b i).qty left
  let left' = left - filled
  let b1 = set_order b i (record (order_at b i) { qty = (order_at b i).qty - filled })
  let o = order_at b1 i
  let b2 = send_client_response b1 (aggressor_fill b1.ticker a o filled left')
  let b3 = send_client_response b2 (passive_fill b2.ticker o filled)
  let b4 = send_market_update b3 (trade_update b3.ticker a.side o filled)
  b5 ←
      (if o.qty == 0
        then remove_order (send_market_update b4 (order_update MarketUpdateType.cancel b4.ticker o))
            i
        else ok (send_market_update b4 (order_update MarketUpdateType.modify b4.ticker o)))
  ok (left', b5)

-- The levels that an order of side `s` trades against, best first.
abbrev pub opposite : MeOrderBook → Side → Option ℕ
opposite b s = if is_buy s then b.asks_by_price else b.bids_by_price

-- `price` reaches the best opposite price `best`: the loop does not `break`.
abbrev pub reaches : Side → ℕ → ℕ → Bool
reaches s price best = if is_buy s then not (ltb price best) else not (ltb best price)

-- Either `while` loop of `checkForMatch`.
unfoldable pub match_loop : ℕ → MeOrderBook → Incoming → ℕ → Result (ℕ × MeOrderBook)
match_loop zero b a left = err out_of_fuel
match_loop (suc fuel) b a left = elim (left == 0) [
  | true ↦ ok (left, b)
  | false ↦ elim (opposite b a.side) [
    | none ↦ ok (left, b)
    | some l ↦ do
      i ← deref (level_at b l).orders_head
      elim (reaches a.side a.price (order_at b i).price) [
        | false ↦ ok (left, b)
        | true ↦ match b a i left >>= λ r. match_loop fuel r.1 a r.0
      ]
  ]
]

-- Each round but the last one removes an order, so the pool's size bounds the rounds.
unfoldable pub check_for_match : MeOrderBook → Incoming → ℕ → Result (ℕ × MeOrderBook)
check_for_match b a qty =
    if is_buy a.side || is_sell a.side
    then match_loop (b.orders_pool.size + 2) b a qty
    else ok (qty, b)

-- What `add` does with the quantity that found no match.
unfoldable pub rest_order : MeOrderBook → Incoming → ℕ → ℕ → Result MeOrderBook
rest_order b a qty qty_left = do
  priority ← get_priority b a.price
  (i, pool) ← allocate b.orders_pool (record {
    ticker_id = b.ticker;
    client_id = a.client_id;
    client_order_id = a.client_order_id;
    market_order_id = a.market_order_id;
    side = a.side;
    price = a.price;
    qty = qty_left;
    priority = priority;
    next_order = none;
    prev_order = none;
  })
  b1 ← add_order_to_price_level (record b { orders_pool = pool }) i
  ok (
      send_market_update b1 (record {
        type = MarketUpdateType.add;
        order_id = a.market_order_id;
        ticker_id = b1.ticker;
        side = a.side;
        price = a.price;
        qty = qty;
        priority = priority;
      }))

abbrev pub accepted_response : ℕ → Incoming → ℕ → MeClientResponse
accepted_response ticker a qty = record {
  type = ClientResponseType.accepted;
  client_id = a.client_id;
  ticker_id = ticker;
  client_order_id = a.client_order_id;
  market_order_id = a.market_order_id;
  side = a.side;
  price = a.price;
  exec_qty = 0;
  left_qty = qty;
}

unfoldable pub add : MeOrderBook → ℕ → ℕ → Side → ℕ → ℕ → Result MeOrderBook
unfolding check_for_match rest_order
add b client_id client_order_id side price qty = do
  let (new_market_order_id, b1) = generate_next_order_id b
  let a : Incoming = record {
    client_id = client_id;
    client_order_id = client_order_id;
    market_order_id = new_market_order_id;
    side = side;
    price = price;
  }
  let b2 = send_client_response b1 (accepted_response b1.ticker a qty)
  (qty_left, b3) ← check_for_match b2 a qty
  if ltb 0 qty_left then rest_order b3 a qty qty_left else ok b3

abbrev pub rejected_response : ℕ → ℕ → ℕ → MeClientResponse
rejected_response ticker client_id order_id = record {
  type = ClientResponseType.cancel_rejected;
  client_id = client_id;
  ticker_id = ticker;
  client_order_id = order_id;
  market_order_id = order_id_invalid;
  side = side_invalid;
  price = price_invalid;
  exec_qty = qty_invalid;
  left_qty = qty_invalid;
}

abbrev pub cancelled_response : ℕ → ℕ → ℕ → MeOrder → MeClientResponse
cancelled_response ticker client_id order_id o = record {
  type = ClientResponseType.cancelled;
  client_id = client_id;
  ticker_id = ticker;
  client_order_id = order_id;
  market_order_id = o.market_order_id;
  side = o.side;
  price = o.price;
  exec_qty = qty_invalid;
  left_qty = o.qty;
}

-- The order that a client's request names, if the identifiers are within the table.
abbrev pub find_order : MeOrderBook → ℕ → ℕ → Option ℕ
find_order b client_id order_id =
    if leb me_max_num_clients client_id || leb me_max_order_ids order_id
    then none
    else b.cid_oid_to_order client_id order_id

unfoldable pub cancel : MeOrderBook → ℕ → ℕ → Result MeOrderBook
cancel b client_id order_id = elim (find_order b client_id order_id) [
  | none ↦ ok (send_client_response b (rejected_response b.ticker client_id order_id))
  | some i ↦ do
    let o = order_at b i
    b1 ← remove_order b i
    let b2 = send_client_response b1 (cancelled_response b1.ticker client_id order_id o)
    ok (send_market_update b2 (order_update MarketUpdateType.cancel b2.ticker o))
]
