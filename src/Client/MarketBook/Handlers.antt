-- ===== src/Client/MarketBook/Handlers.antt =====
-- `onMarketUpdate` and `updateBBO`.
use trading_system.Prelude.{
  ℕ, zero, suc, ◌+◌, ◌%◌, ◌^◌, Bool, true, false, ◌&&◌, Option, none, some, Result, ok, err, ◌>>=◌,
  ◌>>◌, deref, require, out_of_range, out_of_fuel, leb, ltb, if◌then◌else◌,
}
use trading_system.Types.{is_buy, is_sell, me_max_order_ids, price_invalid, qty_invalid}
use trading_system.Messages.{MarketUpdateType, MeMarketUpdate}
use trading_system.MemPool.{allocate, deallocate}
use trading_system.Client.MarketBook.State.{MarketOrderBook, order_at, level_at, set_order}
use trading_system.Client.MarketBook.Levels.{add_order}
use trading_system.Client.MarketBook.Remove.{points_to, remove_order}

-- `bid_qty_`: the quantities of a level's orders from `i` round to `first`, in 32 bits.
unfoldable pub sum_qty : ℕ → MarketOrderBook → ℕ → Option ℕ → ℕ → Result ℕ
sum_qty zero b first i acc = err out_of_fuel
sum_qty (suc fuel) b first i acc = elim (points_to i first) [
  | true ↦ ok acc
  | false ↦ deref i >>= λ j.
      sum_qty fuel b first (order_at b j).next_order ((acc + (order_at b j).qty) % 2 ^ 32)
]

-- The price and quantity of the best level of a side.
unfoldable pub best_of : MarketOrderBook → Option ℕ → Result (ℕ × ℕ)
unfolding sum_qty
best_of b head = elim head [
  | none ↦ ok (price_invalid, qty_invalid)
  | some l ↦ do
    first ← deref (level_at b l).first_order
    qty ←
        sum_qty (b.order_pool.size + 1) b first (order_at b first).next_order (order_at b first).qty
    ok ((level_at b l).price, qty)
]

unfoldable pub update_bid : MarketOrderBook → Result MarketOrderBook
unfolding best_of
update_bid b = do
  (price, qty) ← best_of b b.bids_by_price
  ok (record b { bbo = record (b.bbo) { bid_price = price; bid_qty = qty } })

unfoldable pub update_ask : MarketOrderBook → Result MarketOrderBook
unfolding best_of
update_ask b = do
  (price, qty) ← best_of b b.asks_by_price
  ok (record b { bbo = record (b.bbo) { ask_price = price; ask_qty = qty } })

unfoldable pub update_bbo : MarketOrderBook → Bool → Bool → Result MarketOrderBook
unfolding update_bid update_ask
update_bbo b bid ask = do
  b1 ← if bid then update_bid b else ok b
  if ask then update_ask b1 else ok b1

-- The updated side reaches the best level: computed before the update is applied.
abbrev pub bid_updated : MarketOrderBook → MeMarketUpdate → Bool
bid_updated b u = elim b.bids_by_price [
  | none ↦ false
  | some l ↦ is_buy u.side && leb (level_at b l).price u.price
]

abbrev pub ask_updated : MarketOrderBook → MeMarketUpdate → Bool
ask_updated b u = elim b.asks_by_price [
  | none ↦ false
  | some l ↦ is_sell u.side && leb u.price (level_at b l).price
]

unfoldable pub on_add : MarketOrderBook → MeMarketUpdate → Result MarketOrderBook
on_add b u = do
  (i, pool) ← allocate b.order_pool (record {
    order_id = u.order_id;
    side = u.side;
    price = u.price;
    qty = u.qty;
    priority = u.priority;
    prev_order = none;
    next_order = none;
  })
  add_order (record b { order_pool = pool }) i

-- `oid_to_order_[order_id]` has no bounds check.
unfoldable pub on_modify : MarketOrderBook → MeMarketUpdate → Result MarketOrderBook
on_modify b u = do
  require (ltb u.order_id me_max_order_ids) out_of_range
  elim (b.oid_to_order u.order_id) [
    | none ↦ ok b
    | some i ↦ ok (set_order b i (record (order_at b i) { qty = u.qty }))
  ]

unfoldable pub on_cancel : MarketOrderBook → MeMarketUpdate → Result MarketOrderBook
on_cancel b u = do
  require (ltb u.order_id me_max_order_ids) out_of_range
  elim (b.oid_to_order u.order_id) [ none ↦ ok b | some i ↦ remove_order b i ]

-- `for (auto& order : oid_to_order_) if (order) deallocate(order)`, over the `n` slots from `i` on.
unfoldable pub clear_orders : ℕ → ℕ → MarketOrderBook → Result MarketOrderBook
clear_orders zero i b = ok b
clear_orders (suc n) i b = elim (b.oid_to_order i) [
  | none ↦ clear_orders n (suc i) b
  | some p ↦
      deallocate b.order_pool p >>= λ pool. clear_orders n (suc i) (record b { order_pool = pool })
]

-- `for (auto l = head->next_; l != head; l = head->next_) deallocate(l)`. The loop leaves
-- `head->next_` as it is.
unfoldable pub clear_others : ℕ → MarketOrderBook → ℕ → Result MarketOrderBook
clear_others zero b head = err out_of_fuel
clear_others (suc fuel) b head = elim (points_to (level_at b head).next head) [
  | true ↦ ok b
  | false ↦ deref (level_at b head).next >>= λ l. deallocate b.orders_at_price_pool l >>= λ pool.
      clear_others fuel (record b { orders_at_price_pool = pool }) head
]

unfoldable pub clear_side : MarketOrderBook → Option ℕ → Result MarketOrderBook
unfolding clear_others
clear_side b head = elim head [
  | none ↦ ok b
  | some l ↦ do
    b1 ← clear_others 2 b l
    pool ← deallocate b1.orders_at_price_pool l
    ok (record b1 { orders_at_price_pool = pool })
]

-- The pointers to the levels stay as they are.
unfoldable pub on_clear_sized : ℕ → MarketOrderBook → Result MarketOrderBook
unfolding clear_orders clear_side
on_clear_sized slots b = do
  b1 ← clear_orders slots 0 b
  let b2 = record b1 { oid_to_order = λ _. none }
  b3 ← clear_side b2 b2.bids_by_price
  clear_side b3 b3.asks_by_price

-- Whom the trade engine is told of.
pub data Notice : Type 0 where
  trade_notice book_notice : Notice

unfoldable pub apply_update : MarketOrderBook → MeMarketUpdate → Result MarketOrderBook
unfolding on_add on_modify on_cancel
apply_update b u = elim u.type [
  | MarketUpdateType.add ↦ on_add b u
  | MarketUpdateType.modify ↦ on_modify b u
  | MarketUpdateType.cancel ↦ on_cancel b u
  | MarketUpdateType.clear ↦ on_clear_sized me_max_order_ids b
  | _ ↦ ok b
]

-- A trade leaves the book alone; any other update refreshes the best prices.
unfoldable pub handle_update :
    MarketUpdateType → MarketOrderBook → MeMarketUpdate → Result (MarketOrderBook × Notice)
unfolding apply_update update_bbo
handle_update MarketUpdateType.trade b u = ok (b, trade_notice)
handle_update _ b u = do
  b1 ← apply_update b u
  b2 ← update_bbo b1 (bid_updated b u) (ask_updated b u)
  ok (b2, book_notice)

unfoldable pub on_market_update :
    MarketOrderBook → MeMarketUpdate → Result (MarketOrderBook × Notice)
unfolding handle_update
on_market_update b u = handle_update u.type b u
