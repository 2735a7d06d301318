-- ===== src/Client/MarketBook/State.antt =====
-- The state of a `MarketOrderBook`: two pools, linked by pointers into them.
use trading_system.Prelude.{ℕ, ◌%◌, Option, none, Result, ok, ◌>>=◌, update, if◌then◌else◌}
use trading_system.Types.{
  Side, side_invalid, is_buy, me_max_price_levels, me_max_order_ids, order_id_invalid,
  price_invalid, qty_invalid, priority_invalid,
}
use trading_system.MemPool.{MemPool, new_pool, read, write}

pub record MarketOrder : Type 0 where
  pub order_id : ℕ
  pub side : Side
  pub price : ℕ
  pub qty : ℕ
  pub priority : ℕ
  pub prev_order : Option ℕ
  pub next_order : Option ℕ

abbrev pub blank_order : MarketOrder
blank_order = record {
  order_id = order_id_invalid;
  side = side_invalid;
  price = price_invalid;
  qty = qty_invalid;
  priority = priority_invalid;
  prev_order = none;
  next_order = none;
}

pub record MarketOrdersAtPrice : Type 0 where
  pub side : Side
  pub price : ℕ
  pub first_order : Option ℕ
  pub prev : Option ℕ
  pub next : Option ℕ

abbrev pub blank_level : MarketOrdersAtPrice
blank_level = record {
  side = side_invalid;
  price = price_invalid;
  first_order = none;
  prev = none;
  next = none;
}

-- The best bid and offer.
pub record Bbo : Type 0 where
  pub bid_price : ℕ
  pub ask_price : ℕ
  pub bid_qty : ℕ
  pub ask_qty : ℕ

abbrev pub blank_bbo : Bbo
blank_bbo = record {
  bid_price = price_invalid;
  ask_price = price_invalid;
  bid_qty = qty_invalid;
  ask_qty = qty_invalid;
}

pub record MarketOrderBook : Type 0 where
  pub ticker_id : ℕ
  pub oid_to_order : ℕ → Option ℕ
  pub orders_at_price_pool : MemPool MarketOrdersAtPrice
  pub bids_by_price : Option ℕ
  pub asks_by_price : Option ℕ
  pub oid_to_price_level : ℕ → Option ℕ
  pub order_pool : MemPool MarketOrder
  pub bbo : Bbo

-- The constructor, over pools of `levels` and `orders` cells.
unfoldable pub new_book_sized : ℕ → ℕ → ℕ → Result MarketOrderBook
new_book_sized levels orders ticker = do
  level_pool ← new_pool blank_level levels
  order_pool ← new_pool blank_order orders
  ok (record {
    ticker_id = ticker;
    oid_to_order = λ _. none;
    orders_at_price_pool = level_pool;
    bids_by_price = none;
    asks_by_price = none;
    oid_to_price_level = λ _. none;
    order_pool = order_pool;
    bbo = blank_bbo;
  })

unfoldable pub new_book : ℕ → Result MarketOrderBook
unfolding new_book_sized
new_book ticker = new_book_sized me_max_price_levels me_max_order_ids ticker

-- Reads and writes through pointers into the pools.
abbrev pub order_at : MarketOrderBook → ℕ → MarketOrder
order_at b i = read b.order_pool i

abbrev pub level_at : MarketOrderBook → ℕ → MarketOrdersAtPrice
level_at b l = read b.orders_at_price_pool l

unfoldable pub set_order : MarketOrderBook → ℕ → MarketOrder → MarketOrderBook
set_order b i o = record b { order_pool = write b.order_pool i o }

unfoldable pub set_level : MarketOrderBook → ℕ → MarketOrdersAtPrice → MarketOrderBook
set_level b l v = record b { orders_at_price_pool = write b.orders_at_price_pool l v }

-- `(side == Side::BUY) ? bids_by_price_ : asks_by_price_`, read and written.
abbrev pub side_head : MarketOrderBook → Side → Option ℕ
side_head b s = if is_buy s then b.bids_by_price else b.asks_by_price

unfoldable pub set_side_head : MarketOrderBook → Side → Option ℕ → MarketOrderBook
set_side_head b s p =
    if is_buy s then record b { bids_by_price = p } else record b { asks_by_price = p }

abbrev pub price_to_index : ℕ → ℕ
price_to_index p = p % me_max_price_levels

abbrev pub get_orders_at_price : MarketOrderBook → ℕ → Option ℕ
get_orders_at_price b p = b.oid_to_price_level (price_to_index p)

unfoldable pub set_orders_at_price : MarketOrderBook → ℕ → Option ℕ → MarketOrderBook
set_orders_at_price b p v = record b {
  oid_to_price_level = update b.oid_to_price_level (price_to_index p) v;
}
