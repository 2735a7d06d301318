-- ===== src/Exchange/OrderBook/Remove.antt =====
-- `removeOrder` and `removeOrderAtPrice`.
use trading_system.Prelude.{
  ℕ, Bool, false, ◌&&◌, Option, none, some, Result, ok, ◌>>=◌, deref, ◌==◌, if◌then◌else◌,
}
use trading_system.MemPool.{deallocate}
use trading_system.Exchange.OrderBook.State.{
  MeOrderBook, order_at, level_at, set_order, set_level, side_head, set_side_head,
  get_order_at_price, set_order_at_price,
}
use trading_system.Exchange.OrderBook.Levels.{register}

-- `p == &pool[i]`.
abbrev pub points_to : Option ℕ → ℕ → Bool
points_to none i = false
points_to (some j) i = j == i

-- Level `l` is taken out of a list that has other levels.
unfoldable pub unlink_level : MeOrderBook → ℕ → Result MeOrderBook
unlink_level b l = do
  before ← deref (level_at b l).prev
  let b1 = set_level b before (record (level_at b before) { next = (level_at b l).next })
  after ← deref (level_at b1 l).next
  let b2 = set_level b1 after (record (level_at b1 after) { prev = (level_at b1 l).prev })
  let b3 =
      if points_to (side_head b2 (level_at b2 l).side) l
      then set_side_head b2 (level_at b2 l).side (level_at b2 l).next
      else b2
  ok (set_level b3 l (record (level_at b3 l) { next = none; prev = none }))

unfoldable pub remove_order_at_price : MeOrderBook → ℕ → Result MeOrderBook
unfolding unlink_level
remove_order_at_price b l = do
  b1 ←
      (if points_to (level_at b l).next l
        then ok (set_side_head b (level_at b l).side none)
        else unlink_level b l)
  let b2 = set_order_at_price b1 (level_at b1 l).price none
  pool ← deallocate b2.orders_at_price_pool l
  ok (record b2 { orders_at_price_pool = pool })

-- Order `i` is taken out of a level, behind `level`, that has other orders.
unfoldable pub unlink_order : MeOrderBook → Option ℕ → ℕ → Result MeOrderBook
unlink_order b level i = do
  before ← deref (order_at b i).prev_order
  let b1 =
      set_order b before (record (order_at b before) { next_order = (order_at b i).next_order })
  after ← deref (order_at b1 i).next_order
  let b2 =
      set_order b1 after (record (order_at b1 after) { prev_order = (order_at b1 i).prev_order })
  l ← deref level
  let b3 =
      if points_to (level_at b2 l).orders_head i
      then set_level b2 l (record (level_at b2 l) { orders_head = (order_at b2 i).next_order })
      else b2
  ok (set_order b3 i (record (order_at b3 i) { next_order = none; prev_order = none }))

unfoldable pub remove_order : MeOrderBook → ℕ → Result MeOrderBook
unfolding remove_order_at_price unlink_order
remove_order b i = do
  let level = get_order_at_price b (order_at b i).price
  b1 ←
      (if points_to (order_at b i).next_order i && points_to (order_at b i).prev_order i
        then (deref level >>= remove_order_at_price b)
        else unlink_order b level i)
  b2 ← register b1 (order_at b1 i).client_id (order_at b1 i).client_order_id none
  pool ← deallocate b2.orders_pool i
  ok (record b2 { orders_pool = pool })
