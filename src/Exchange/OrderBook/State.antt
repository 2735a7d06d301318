-- ===== src/Exchange/OrderBook/State.antt =====
-- The state of an `MEOrderBook`: orders and price levels live in two memory pools and are linked
-- by pointers into them. Messages to the engine are kept in the order in which they are sent.
use trading_system.Prelude.{
  ℕ, ◌+◌, ◌%◌, ◌^◌, Option, none, some, List, [], ◌∷◌, ◌++◌, Result, ok, ◌>>=◌, deref, update,
  if◌then◌else◌,
}
use trading_system.Types.{
  Side, side_invalid, is_buy, me_max_price_levels, me_max_order_ids, order_id_invalid,
  ticker_id_invalid, client_id_invalid, price_invalid, qty_invalid, priority_invalid,
}
use trading_system.Messages.{MeClientResponse, MeMarketUpdate}
use trading_system.MemPool.{MemPool, new_pool, read, write}

pub record MeOrder : Type 0 where
  pub ticker_id : ℕ
  pub client_id : ℕ
  pub client_order_id : ℕ
  pub market_order_id : ℕ
  pub side : Side
  pub price : ℕ
  pub qty : ℕ
  pub priority : ℕ
  pub next_order : Option ℕ
  pub prev_order : Option ℕ

abbrev pub blank_order : MeOrder
blank_order = record {
  ticker_id = ticker_id_invalid;
  client_id = client_id_invalid;
  client_order_id = order_id_invalid;
  market_order_id = order_id_invalid;
  side = side_invalid;
  price = price_invalid;
  qty = qty_invalid;
  priority = priority_invalid;
  next_order = none;
  prev_order = none;
}

pub record MeOrdersAtPrice : Type 0 where
  pub side : Side
  pub price : ℕ
  pub orders_head : Option ℕ
  pub next : Option ℕ
  pub prev : Option ℕ

abbrev pub blank_level : MeOrdersAtPrice
blank_level = record {
  side = side_invalid;
  price = price_invalid;
  orders_head = none;
  next = none;
  prev = none;
}

pub record MeOrderBook : Type 0 where
  pub ticker : ℕ
  pub cid_oid_to_order : ℕ → ℕ → Option ℕ
  pub orders_at_price_pool : MemPool MeOrdersAtPrice
  pub bids_by_price : Option ℕ
  pub asks_by_price : Option ℕ
  pub price_to_orders_at_price : ℕ → Option ℕ
  pub orders_pool : MemPool MeOrder
  pub next_order_id : ℕ
  pub responses : List MeClientResponse
  pub updates : List MeMarketUpdate

-- The constructor, over pools of `levels` and `orders` cells.
unfoldable pub new_book_sized : ℕ → ℕ → ℕ → Result MeOrderBook
new_book_sized levels orders ticker = do
  level_pool ← new_pool blank_level levels
  order_pool ← new_pool blank_order orders
  ok (record {
    ticker = ticker;
    cid_oid_to_order = λ _ _. none;
    orders_at_price_pool = level_pool;
    bids_by_price = none;
    asks_by_price = none;
    price_to_orders_at_price = λ _. none;
    orders_pool = order_pool;
    next_order_id = 1;
    responses = [];
    updates = [];
  })

unfoldable pub new_book : ℕ → Result MeOrderBook
unfolding new_book_sized
new_book ticker = new_book_sized me_max_price_levels me_max_order_ids ticker

-- Reads and writes through pointers into the pools.
abbrev pub order_at : MeOrderBook → ℕ → MeOrder
order_at b i = read b.orders_pool i

abbrev pub level_at : MeOrderBook → ℕ → MeOrdersAtPrice
level_at b l = read b.orders_at_price_pool l

unfoldable pub set_order : MeOrderBook → ℕ → MeOrder → MeOrderBook
set_order b i o = record b { orders_pool = write b.orders_pool i o }

unfoldable pub set_level : MeOrderBook → ℕ → MeOrdersAtPrice → MeOrderBook
set_level b l v = record b { orders_at_price_pool = write b.orders_at_price_pool l v }

-- `(side == Side::BUY) ? bids_by_price_ : asks_by_price_`, read and written.
abbrev pub side_head : MeOrderBook → Side → Option ℕ
side_head b s = if is_buy s then b.bids_by_price else b.asks_by_price

unfoldable pub set_side_head : MeOrderBook → Side → Option ℕ → MeOrderBook
set_side_head b s p =
    if is_buy s then record b { bids_by_price = p } else record b { asks_by_price = p }

unfoldable pub send_client_response : MeOrderBook → MeClientResponse → MeOrderBook
send_client_response b r = record b { responses = b.responses ++ (r ∷ []) }

unfoldable pub send_market_update : MeOrderBook → MeMarketUpdate → MeOrderBook
send_market_update b u = record b { updates = b.updates ++ (u ∷ []) }

-- The current number, and the book after `next_order_id_++`.
unfoldable pub generate_next_order_id : MeOrderBook → ℕ × MeOrderBook
generate_next_order_id b =
    (b.next_order_id, record b { next_order_id = (b.next_order_id + 1) % 2 ^ 64 })

abbrev pub price_to_index : ℕ → ℕ
price_to_index p = p % me_max_price_levels

abbrev pub get_order_at_price : MeOrderBook → ℕ → Option ℕ
get_order_at_price b p = b.price_to_orders_at_price (price_to_index p)

unfoldable pub set_order_at_price : MeOrderBook → ℕ → Option ℕ → MeOrderBook
set_order_at_price b p v = record b {
  price_to_orders_at_price = update b.price_to_orders_at_price (price_to_index p) v;
}

-- One more than the priority of the last order of the price's level, or 1.
unfoldable pub get_priority : MeOrderBook → ℕ → Result ℕ
get_priority b p = elim (get_order_at_price b p) [
  | none ↦ ok 1
  | some l ↦ do
    head ← deref (level_at b l).orders_head
    last ← deref (order_at b head).prev_order
    ok (((order_at b last).priority + 1) % 2 ^ 64)
]
