-- ===== src/Exchange/OrderBook/Matching/Removal.antt =====
-- When `removeOrder` cannot fail: the links of the order and of its level that it follows.
use trading_system.Prelude.{ℕ, ◌<◌, ◌&&◌, ◌≡◌, ◌∙◌, true, false, none, some, ok, ◌>>=◌, lt→ltb, ltb}
use trading_system.MemPool.{deallocate}
use trading_system.MemPool.Laws.{deallocate-Deallocated}
use trading_system.Types.{me_max_num_clients, me_max_order_ids}
use trading_system.Exchange.OrderBook.State.{
  MeOrderBook, set_order_at_price, order_at, level_at, get_order_at_price,
}
use trading_system.Exchange.OrderBook.Levels.{register}
use trading_system.Exchange.OrderBook.Remove.{remove_order_at_price, remove_order, points_to}
use trading_system.Exchange.OrderBook.Matching.Quiet.{Removed, remove_order-Removed}
use trading_system.Prelude.{Returns, gives, Returns-bind, Returns-if, Returns-mono, Returns-Ensures}
use trading_system.Exchange.OrderBook.Matching.Keeping.{
  Keeps, keeps, set_order_at_price-Keeps, unlink_order-Keeps, unlink_level-Keeps,
}

-- The orders of the book are owned as before, in the same cells.
record Owners (b b' : MeOrderBook) : Type 0 where
  client : (j : ℕ) → (order_at b' j).client_id ≡ (order_at b j).client_id
  order : (j : ℕ) → (order_at b' j).client_order_id ≡ (order_at b j).client_order_id
  cells : (j : ℕ) → (b'.orders_pool.cells j).is_free ≡ (b.orders_pool.cells j).is_free
  size : b'.orders_pool.size ≡ b.orders_pool.size

-- A level in use that its neighbours can be reached from.
pub record LevelLinked (b : MeOrderBook) (l : ℕ) : Type 0 where
  pub in_range : l < b.orders_at_price_pool.size
  pub in_use : (b.orders_at_price_pool.cells l).is_free ≡ false
  pub before : ℕ
  pub after : ℕ
  pub prev : (level_at b l).prev ≡ some before
  pub next : (level_at b l).next ≡ some after

release_level :
    (b b1 : MeOrderBook) (l : ℕ)
    → LevelLinked b l
    → Keeps b b1
    → Returns (Owners b) (do
      let b2 = set_order_at_price b1 (level_at b1 l).price none
      pool ← deallocate b2.orders_at_price_pool l
      ok (record b2 { orders_at_price_pool = pool }))
release_level b b1 l w k =
    let k2 = set_order_at_price-Keeps k (level_at b1 l).price none in
    let (pool, e, d) =
      deallocate-Deallocated (set_order_at_price b1 (level_at b1 l).price none).orders_at_price_pool
        l (rw k2.level_size w.in_range) (k2.level_cells l ∙ w.in_use) in
    rw e (gives (record { client = k2.client; order = k2.order; cells = k2.cells; size = k2.size }))

remove_order_at_price-Owners :
    (b : MeOrderBook) (l : ℕ) → LevelLinked b l → Returns (Owners b) (remove_order_at_price b l)
unfolding remove_order_at_price
remove_order_at_price-Owners b l w =
    Returns-bind
      (Returns-if (points_to (level_at b l).next l) (search keeps)
        (unlink_level-Keeps b l w.before w.after w.prev w.next))
      λ b1 k. release_level b b1 l w k

-- An order in use, reachable from its neighbours, of a level that is, and of a client and with an
-- identifier within the table.
pub record OrderLinked (b : MeOrderBook) (i : ℕ) : Type 0 where
  pub in_range : i < b.orders_pool.size
  pub in_use : (b.orders_pool.cells i).is_free ≡ false
  pub client : (order_at b i).client_id < me_max_num_clients
  pub order : (order_at b i).client_order_id < me_max_order_ids
  pub before : ℕ
  pub after : ℕ
  pub prev : (order_at b i).prev_order ≡ some before
  pub next : (order_at b i).next_order ≡ some after
  pub level : ℕ
  pub at_price : get_order_at_price b (order_at b i).price ≡ some level
  pub level_linked : LevelLinked b level

release_order :
    (b b1 : MeOrderBook) (i : ℕ)
    → OrderLinked b i
    → Owners b b1
    → Returns
        (λ b'. Unit {0})
        (do
          b2 ← register b1 (order_at b1 i).client_id (order_at b1 i).client_order_id none
          pool ← deallocate b2.orders_pool i
          ok (record b2 { orders_pool = pool }))
unfolding register
release_order b b1 i w o =
    let client_in : ltb (order_at b1 i).client_id me_max_num_clients ≡ true =
      lt→ltb (order_at b1 i).client_id me_max_num_clients (rw (o.client i) w.client) in
    let order_in : ltb (order_at b1 i).client_order_id me_max_order_ids ≡ true =
      lt→ltb (order_at b1 i).client_order_id me_max_order_ids (rw (o.order i) w.order) in
    let (pool, e, d) =
      deallocate-Deallocated b1.orders_pool i (rw o.size w.in_range) (o.cells i ∙ w.in_use) in
    rw (client_in, order_in, register, e) (gives tt)

Keeps-Owners : {b b' : MeOrderBook} → Keeps b b' → Owners b b'
Keeps-Owners k = record { client = k.client; order = k.order; cells = k.cells; size = k.size }

pub remove_order-Returns :
    (b : MeOrderBook) (i : ℕ) → OrderLinked b i → Returns (λ b'. Unit {0}) (remove_order b i)
unfolding remove_order
remove_order-Returns b i w = rw w.at_price (
    Returns-bind
      (Returns-if (points_to (order_at b i).next_order i && points_to (order_at b i).prev_order i)
        (remove_order_at_price-Owners b w.level w.level_linked)
        (Returns-mono (unlink_order-Keeps b w.level i w.before w.after w.prev w.next)
          λ b1 k. Keeps-Owners k))
      λ b1 o. release_order b b1 i w o)

-- `removeOrder` of an order that is in use, linked to its neighbours, and on a level that is, returns:
-- it sends nothing, keeps the numbers of the book, and the pool holds one order fewer.
pub remove_order-ok :
    (b : MeOrderBook) (i : ℕ)
    → OrderLinked b i
    → (b' : MeOrderBook) × (remove_order b i ≡ ok b') × Removed b i b'
remove_order-ok b i w = Returns-Ensures (remove_order-Returns b i w) (remove_order-Removed b i)
