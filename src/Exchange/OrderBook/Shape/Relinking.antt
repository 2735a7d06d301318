-- ===== src/Exchange/OrderBook/Shape/Relinking.antt =====
-- Writes to the links of orders and of levels, one at a time.
use trading_system.Prelude.{ℕ, ◌≡◌, refl, Option, none, arith, update}
use trading_system.Links.Ring.{Link}
use trading_system.Exchange.OrderBook.State.{
  MeOrder, MeOrdersAtPrice, MeOrderBook, order_at, level_at, set_order, set_level,
}
use trading_system.Exchange.OrderBook.Shape.{next_order, prev_order, next_level, prev_level}

-- An order, and a level, but for its links.
abbrev pub bare : MeOrder → MeOrder
bare o = record o { next_order = none; prev_order = none }

abbrev pub bare_level : MeOrdersAtPrice → MeOrdersAtPrice
bare_level l = record l { next = none; prev = none }

-- The orders are linked by `n` and `p`, and the rest is as in `b`.
pub record Relinked (b b' : MeOrderBook) (n p : Link) : Type 0 where
  pub forth : (j : ℕ) → next_order b' j ≡ n j
  pub back : (j : ℕ) → prev_order b' j ≡ p j
  pub data_of : (j : ℕ) → bare (order_at b' j) ≡ bare (order_at b j)
  pub used : (j : ℕ) → (b'.orders_pool.cells j).is_free ≡ (b.orders_pool.cells j).is_free
  pub size : b'.orders_pool.size ≡ b.orders_pool.size
  pub free : b'.orders_pool.next_free_index ≡ b.orders_pool.next_free_index
  pub rest : record b' { orders_pool = b.orders_pool } ≡ b

pub Relinked-refl : (b : MeOrderBook) → Relinked b b (next_order b) (prev_order b)
Relinked-refl b = record {
  forth = λ j. refl;
  back = λ j. refl;
  data_of = λ j. refl;
  used = λ j. refl;
  size = refl;
  free = refl;
  rest = refl;
}

module _ {b b' : MeOrderBook} {n p : Link} (r : Relinked b b' n p) where
  pub set_next :
      (i : ℕ) (v : Option ℕ)
      → Relinked b (set_order b' i (record (order_at b' i) { next_order = v })) (update n i v) p
  unfolding set_order
  set_next i v = record {
    forth = λ j. ground (arith, r.forth j);
    back = λ j. ground (arith, r.back j);
    data_of = λ j. ground (arith, r.data_of j);
    used = λ j. ground (arith, r.used j);
    size = r.size;
    free = r.free;
    rest = r.rest;
  }

  pub set_prev :
      (i : ℕ) (v : Option ℕ)
      → Relinked b (set_order b' i (record (order_at b' i) { prev_order = v })) n (update p i v)
  unfolding set_order
  set_prev i v = record {
    forth = λ j. ground (arith, r.forth j);
    back = λ j. ground (arith, r.back j);
    data_of = λ j. ground (arith, r.data_of j);
    used = λ j. ground (arith, r.used j);
    size = r.size;
    free = r.free;
    rest = r.rest;
  }

-- The levels are linked by `n` and `p`, and the rest is as in `b`.
pub record LevelsRelinked (b b' : MeOrderBook) (n p : Link) : Type 0 where
  pub forth : (j : ℕ) → next_level b' j ≡ n j
  pub back : (j : ℕ) → prev_level b' j ≡ p j
  pub data_of : (j : ℕ) → bare_level (level_at b' j) ≡ bare_level (level_at b j)
  pub used :
      (j : ℕ) → (b'.orders_at_price_pool.cells j).is_free ≡ (b.orders_at_price_pool.cells j).is_free
  pub size : b'.orders_at_price_pool.size ≡ b.orders_at_price_pool.size
  pub free : b'.orders_at_price_pool.next_free_index ≡ b.orders_at_price_pool.next_free_index
  pub rest : record b' { orders_at_price_pool = b.orders_at_price_pool } ≡ b

pub LevelsRelinked-refl : (b : MeOrderBook) → LevelsRelinked b b (next_level b) (prev_level b)
LevelsRelinked-refl b = record {
  forth = λ j. refl;
  back = λ j. refl;
  data_of = λ j. refl;
  used = λ j. refl;
  size = refl;
  free = refl;
  rest = refl;
}

module _ {b b' : MeOrderBook} {n p : Link} (r : LevelsRelinked b b' n p) where
  pub set_next_level :
      (i : ℕ) (v : Option ℕ)
      → LevelsRelinked b (set_level b' i (record (level_at b' i) { next = v })) (update n i v) p
  unfolding set_level
  set_next_level i v = record {
    forth = λ j. ground (arith, r.forth j);
    back = λ j. ground (arith, r.back j);
    data_of = λ j. ground (arith, r.data_of j);
    used = λ j. ground (arith, r.used j);
    size = r.size;
    free = r.free;
    rest = r.rest;
  }

  pub set_prev_level :
      (i : ℕ) (v : Option ℕ)
      → LevelsRelinked b (set_level b' i (record (level_at b' i) { prev = v })) n (update p i v)
  unfolding set_level
  set_prev_level i v = record {
    forth = λ j. ground (arith, r.forth j);
    back = λ j. ground (arith, r.back j);
    data_of = λ j. ground (arith, r.data_of j);
    used = λ j. ground (arith, r.used j);
    size = r.size;
    free = r.free;
    rest = r.rest;
  }
