-- ===== src/Exchange/OrderBook/Priority/Samples.antt =====
-- A book with two levels of sells, and orders that come to it.
use trading_system.Prelude.{
  ℕ, leb, ◌+◌, ◌≤◌, refl, List, [], ◌∷◌, none, some, zero, suc, arith, ◌==◌, if◌then◌else◌,
}
use trading_system.Types.{buy, sell}
use trading_system.Links.Distinct.{◌∈◌}
use trading_system.Exchange.OrderBook.State.{MeOrder, MeOrdersAtPrice, MeOrderBook}
use trading_system.Exchange.OrderBook.Handlers.{Incoming}
use trading_system.Exchange.OrderBook.Shape.{Queue, IsOrder, IsQueue, Sides}
use trading_system.Exchange.OrderBook.Shape.Around.{queue_of}
use trading_system.MemPool.Laws.{IsValid, live}

abbrev sell_order : ℕ → ℕ → ℕ → ℕ → MeOrder
sell_order i price qty neighbour = record {
  ticker_id = 3;
  client_id = 1;
  client_order_id = i;
  market_order_id = i;
  side = sell;
  price = price;
  qty = qty;
  priority = 1;
  next_order = some neighbour;
  prev_order = some neighbour;
}

-- Orders 0 and 1 rest at 100, order 2 rests at 102.
abbrev rested : ℕ → MeOrder
rested zero = sell_order 0 100 5 1
rested (suc zero) = sell_order 1 100 4 0
rested (suc (suc n)) = sell_order 2 102 6 2

abbrev levels : ℕ → MeOrdersAtPrice
levels zero = record {
  side = sell;
  price = 100;
  orders_head = some 0;
  next = some 1;
  prev = some 1;
}
levels (suc n) = record {
  side = sell;
  price = 102;
  orders_head = some 2;
  next = some 0;
  prev = some 0;
}

abbrev pub two_levels : MeOrderBook
two_levels = record {
  ticker = 3;
  cid_oid_to_order = λ c o. if c == 1 then some o else none;
  orders_at_price_pool = record {
    cells = λ l. record { object = levels l; is_free = leb 2 l };
    size = 5;
    next_free_index = 2;
  };
  bids_by_price = none;
  asks_by_price = some 0;
  price_to_orders_at_price = λ p. if p == 100 then some 0 else (if p == 102 then some 1 else none);
  orders_pool = record {
    cells = λ i. record { object = rested i; is_free = leb 3 i };
    size = 6;
    next_free_index = 3;
  };
  next_order_id = 4;
  responses = [];
  updates = [];
}

abbrev pub sells : List Queue
sells = queue_of 0 (0 ∷ 1 ∷ []) ∷ queue_of 1 (2 ∷ []) ∷ []

zero-IsOrder : IsOrder two_levels sell 100 0
zero-IsOrder = record {
  side = refl;
  price = refl;
  in_range = omega arith;
  in_use = refl;
  client = omega arith;
  order = omega arith;
  registered = refl;
}

one-IsOrder : IsOrder two_levels sell 100 1
one-IsOrder = record {
  side = refl;
  price = refl;
  in_range = omega arith;
  in_use = refl;
  client = omega arith;
  order = omega arith;
  registered = refl;
}

two-IsOrder : IsOrder two_levels sell 102 2
two-IsOrder = record {
  side = refl;
  price = refl;
  in_range = omega arith;
  in_use = refl;
  client = omega arith;
  order = omega arith;
  registered = refl;
}

at_100 : (i : ℕ) → i ∈ (0 ∷ 1 ∷ []) → IsOrder two_levels sell 100 i
at_100 zero m = zero-IsOrder
at_100 (suc zero) m = one-IsOrder
at_100 (suc (suc n)) m = absurd (ground (arith, m))

at_102 : (i : ℕ) → i ∈ (2 ∷ []) → IsOrder two_levels sell 102 i
at_102 zero m = absurd (ground (arith, m))
at_102 (suc zero) m = absurd (ground (arith, m))
at_102 (suc (suc zero)) m = two-IsOrder
at_102 (suc (suc (suc n))) m = absurd (ground (arith, m))

first-IsQueue : IsQueue two_levels sell (queue_of 0 (0 ∷ 1 ∷ []))
first-IsQueue = record {
  side = refl;
  head = refl;
  holds = λ e. cc;
  ring = record { distinct = (refl, (refl, tt)); linked = (refl, refl, (refl, refl)) };
  at_price = refl;
  in_range = omega arith;
  in_use = refl;
  each = at_100;
}

second-IsQueue : IsQueue two_levels sell (queue_of 1 (2 ∷ []))
second-IsQueue = record {
  side = refl;
  head = refl;
  holds = λ e. cc;
  ring = record { distinct = (refl, tt); linked = (refl, refl) };
  at_price = refl;
  in_range = omega arith;
  in_use = refl;
  each = at_102;
}

pub two_levels-Sides : Sides two_levels sell buy sells []
two_levels-Sides = record {
  mine = record {
    best = refl;
    ring = record { distinct = (refl, (refl, tt)); linked = (refl, refl, (refl, refl)) };
    queues = (first-IsQueue, (second-IsQueue, tt));
    sorted = ((refl, tt), (tt, tt));
  };
  theirs = record {
    best = refl;
    ring = record { distinct = tt; linked = tt };
    queues = tt;
    sorted = tt;
  };
}

pub orders-IsValid : IsValid two_levels.orders_pool
orders-IsValid = record { in_range = omega arith; next_is_free = refl }

pub levels-IsValid : IsValid two_levels.orders_at_price_pool
levels-IsValid = record { in_range = omega arith; next_is_free = refl }

pub orders_room : live two_levels.orders_pool + 2 ≤ two_levels.orders_pool.size
unfolding live
orders_room = omega arith

pub levels_room : live two_levels.orders_at_price_pool + 2 ≤ two_levels.orders_at_price_pool.size
unfolding live
levels_room = omega arith

abbrev pub seller : ℕ → Incoming
seller price = record {
  client_id = 2;
  client_order_id = 20;
  market_order_id = 9;
  side = sell;
  price = price;
}

abbrev pub wide_buyer : Incoming
wide_buyer = record {
  client_id = 2;
  client_order_id = 20;
  market_order_id = 9;
  side = buy;
  price = 103;
}
