-- ===== src/Client/MarketBook/Levels.antt =====
-- `AddOrder` and `AddOrderAtPrice`.
use trading_system.Prelude.{
  ℕ, zero, suc, ◌+◌, Bool, true, false, ◌&&◌, ◌||◌, not, Option, none, some, Result, ok, err, ◌>>=◌,
  ◌>>◌, deref, require, out_of_range, out_of_fuel, update, ltb, ◌==◌, if◌then◌else◌,
}
use trading_system.Types.{is_buy, is_sell, me_max_order_ids}
use trading_system.MemPool.{allocate}
use trading_system.Client.MarketBook.State.{
  MarketOrdersAtPrice, MarketOrderBook, order_at, level_at, set_order, set_level, side_head,
  set_side_head, get_orders_at_price, set_orders_at_price,
}

-- The condition under which the new level goes behind `curr`.
abbrev pub move_cond : MarketOrdersAtPrice → MarketOrdersAtPrice → Bool
move_cond new curr =
    (is_buy new.side && ltb new.price curr.price) || (is_sell new.side && ltb curr.price new.price)

-- The condition under which the new level becomes the head.
abbrev pub is_better : MarketOrdersAtPrice → MarketOrdersAtPrice → Bool
is_better new head =
    (is_buy new.side && ltb head.price new.price) || (is_sell new.side && ltb new.price head.price)

-- `while (move_cond && curr != head) { move_cond = ...; if (move_cond) curr = curr->next_; }`
unfoldable pub find_place : ℕ → MarketOrderBook → MarketOrdersAtPrice → ℕ → ℕ → Bool → Result ℕ
find_place zero b new head curr move = err out_of_fuel
find_place (suc fuel) b new head curr move = elim (move && not (curr == head)) [
  | false ↦ ok curr
  | true ↦ elim (move_cond new (level_at b curr)) [
    | false ↦ find_place fuel b new head curr false
    | true ↦ deref (level_at b curr).next >>= λ c. find_place fuel b new head c true
  ]
]

-- The statements before the loop, and the loop.
unfoldable pub search_place : MarketOrderBook → MarketOrdersAtPrice → ℕ → Result ℕ
search_place b new head = elim (move_cond new (level_at b head)) [
  | false ↦ find_place fuel b new head head false
  | true ↦ do
    curr ← deref (level_at b head).next
    find_place fuel b new head curr (move_cond new (level_at b curr))
]
  where
    fuel : ℕ
    fuel = b.orders_at_price_pool.size + 2

-- Level `l` is linked in before level `curr`.
unfoldable pub splice_level : MarketOrderBook → ℕ → ℕ → Result MarketOrderBook
splice_level b l curr = do
  before ← deref (level_at b curr).prev
  let b1 = set_level b l (record (level_at b l) { next = (level_at b before).next })
  let b2 = set_level b1 l (record (level_at b1 l) { prev = some before })
  after ← deref (level_at b2 before).next
  let b3 = set_level b2 after (record (level_at b2 after) { prev = some l })
  ok (set_level b3 before (record (level_at b3 before) { next = some l }))

unfoldable pub add_order_at_price : MarketOrderBook → ℕ → Result MarketOrderBook
unfolding search_place find_place splice_level
add_order_at_price b l = elim (side_head b0 new.side) [
  | none ↦ ok (
      set_level (set_side_head b0 new.side (some l)) l
        (record new { next = some l; prev = some l }))
  | some head ↦ do
    curr ← search_place b0 new head
    b1 ← splice_level b0 l curr
    ok (if is_better new (level_at b1 head) then set_side_head b1 new.side (some l) else b1)
]
  where
    new : MarketOrdersAtPrice
    new = level_at b l

    b0 : MarketOrderBook
    b0 = set_orders_at_price b new.price (some l)

-- `oid_to_order_.at(order_id) = p`, and `oid_to_order_[order_id] = p` with its index in bounds.
unfoldable pub register : MarketOrderBook → ℕ → Option ℕ → Result MarketOrderBook
register b order_id p = do
  require (ltb order_id me_max_order_ids) out_of_range
  ok (record b { oid_to_order = update b.oid_to_order order_id p })

-- Order `i` is linked in behind the last order of level `l`.
unfoldable pub append_order : MarketOrderBook → ℕ → ℕ → Result MarketOrderBook
append_order b l i = do
  head ← deref (level_at b l).first_order
  last ← deref (order_at b head).prev_order
  let b1 = set_order b last (record (order_at b last) { next_order = some i })
  let b2 = set_order b1 i (record (order_at b1 i) { next_order = some head })
  let b3 = set_order b2 i (record (order_at b2 i) { prev_order = (order_at b2 head).prev_order })
  ok (set_order b3 head (record (order_at b3 head) { prev_order = some i }))

-- A level of its own for order `i`.
unfoldable pub open_level : MarketOrderBook → ℕ → Result MarketOrderBook
unfolding add_order_at_price
open_level b i = do
  let o = order_at b i
  let b1 = set_order b i (record o { next_order = some i; prev_order = some i })
  (l, pool) ←
      allocate b1.orders_at_price_pool
        (record { side = o.side; price = o.price; first_order = some i; next = none; prev = none })
  add_order_at_price (record b1 { orders_at_price_pool = pool }) l

unfoldable pub add_order : MarketOrderBook → ℕ → Result MarketOrderBook
unfolding open_level append_order register
add_order b i = do
  b' ← elim (get_orders_at_price b (order_at b i).price) [
    | none ↦ open_level b i
    | some l ↦ append_order b l i
  ]
  register b' (order_at b' i).order_id (some i)
