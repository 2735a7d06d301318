-- ===== src/Exchange/OrderBook/Matching/Keeping.antt =====
-- Unlinking returns when its neighbours are there, and keeps owners and marks.
use trading_system.Prelude.{
  ℕ, ◌<◌, ◌&&◌, ◌≡◌, refl, ◌∙◌, Bool, true, false, Option, none, some, Result, ok, ◌>>=◌, arith,
  lt→ltb, ltb, if◌then◌else◌, Ensures, Ensures-ok,
}
use trading_system.Types.{Side}
use trading_system.Exchange.OrderBook.State.{
  MeOrder, MeOrdersAtPrice, MeOrderBook, set_order, set_level, set_side_head, set_order_at_price,
  order_at, level_at,
}
use trading_system.Exchange.OrderBook.Remove.{unlink_level, unlink_order}
use trading_system.Prelude.{Returns, gives, Returns-bind, Returns-if, Returns-mono, Returns-Ensures}

-- The owners of all orders and the marks of all cells are kept.
pub record Keeps (b b' : MeOrderBook) : Type 0 where
  pub client : (j : ℕ) → (order_at b' j).client_id ≡ (order_at b j).client_id
  pub order : (j : ℕ) → (order_at b' j).client_order_id ≡ (order_at b j).client_order_id
  pub cells : (j : ℕ) → (b'.orders_pool.cells j).is_free ≡ (b.orders_pool.cells j).is_free
  pub size : b'.orders_pool.size ≡ b.orders_pool.size
  pub level_cells :
      (j : ℕ) → (b'.orders_at_price_pool.cells j).is_free ≡ (b.orders_at_price_pool.cells j).is_free
  pub level_size : b'.orders_at_price_pool.size ≡ b.orders_at_price_pool.size

pub Keeps-refl : (b : MeOrderBook) → Keeps b b
Keeps-refl b = record {
  client = λ j. refl;
  order = λ j. refl;
  cells = λ j. refl;
  size = refl;
  level_cells = λ j. refl;
  level_size = refl;
}

module _ {b b' : MeOrderBook} (q : Keeps b b') where
  pub set_order-Keeps :
      (i : ℕ) (o : MeOrder)
      → o.client_id ≡ (order_at b' i).client_id
      → o.client_order_id ≡ (order_at b' i).client_order_id
      → Keeps b (set_order b' i o)
  unfolding set_order
  set_order-Keeps i o c d = record {
    client = λ j. ground (arith, q.client j);
    order = λ j. ground (arith, q.order j);
    cells = λ j. ground (arith, q.cells j);
    size = q.size;
    level_cells = q.level_cells;
    level_size = q.level_size;
  }

  pub set_level-Keeps : (l : ℕ) (v : MeOrdersAtPrice) → Keeps b (set_level b' l v)
  unfolding set_level
  set_level-Keeps l v = record {
    client = q.client;
    order = q.order;
    cells = q.cells;
    size = q.size;
    level_cells = λ j. ground (arith, q.level_cells j);
    level_size = q.level_size;
  }

  pub set_side_head-Keeps : (s : Side) (p : Option ℕ) → Keeps b (set_side_head b' s p)
  unfolding set_side_head
  set_side_head-Keeps s p =
      ground (arith, q.client, q.order, q.cells, q.size, q.level_cells, q.level_size)

  pub set_order_at_price-Keeps : (p : ℕ) (v : Option ℕ) → Keeps b (set_order_at_price b' p v)
  unfolding set_order_at_price
  set_order_at_price-Keeps p v = record {
    client = q.client;
    order = q.order;
    cells = q.cells;
    size = q.size;
    level_cells = q.level_cells;
    level_size = q.level_size;
  }

pub if-Keeps :
    {b x y : MeOrderBook} (c : Bool) → Keeps b x → Keeps b y → Keeps b (if c then x else y)
if-Keeps true p q = p
if-Keeps false p q = q

pub ruleset keeps = (
  Keeps-refl, set_order-Keeps, set_level-Keeps, set_side_head-Keeps, set_order_at_price-Keeps,
  if-Keeps, gives, refl,
)

next_kept :
    (b : MeOrderBook) (p i n : ℕ) (o : MeOrder)
    → (order_at b i).next_order ≡ some n
    → o.next_order ≡ some n
    → (order_at (set_order b p o) i).next_order ≡ some n
unfolding set_order
next_kept b p i n o e f = ground (arith, e, f)

pub unlink_order-Keeps :
    (b : MeOrderBook) (l i p n : ℕ)
    → (order_at b i).prev_order ≡ some p
    → (order_at b i).next_order ≡ some n
    → Returns (Keeps b) (unlink_order b (some l) i)
unfolding unlink_order
unlink_order-Keeps b l i p n before after =
    rw
      (
        before,
        next_kept b p i n (record (order_at b p) { next_order = (order_at b i).next_order }) after
            after,
        unlink_order,
      )
      (search keeps depth 14)

next_level_kept :
    (b : MeOrderBook) (p l n : ℕ) (v : MeOrdersAtPrice)
    → (level_at b l).next ≡ some n
    → v.next ≡ some n
    → (level_at (set_level b p v) l).next ≡ some n
unfolding set_level
next_level_kept b p l n v e f = ground (arith, e, f)

pub unlink_level-Keeps :
    (b : MeOrderBook) (l p n : ℕ)
    → (level_at b l).prev ≡ some p
    → (level_at b l).next ≡ some n
    → Returns (Keeps b) (unlink_level b l)
unfolding unlink_level
unlink_level-Keeps b l p n before after =
    rw
      (
        before,
        next_level_kept b p l n (record (level_at b p) { next = (level_at b l).next }) after after,
        unlink_level,
      )
      (search keeps depth 14)
