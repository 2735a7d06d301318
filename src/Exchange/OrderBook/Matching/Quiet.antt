-- ===== src/Exchange/OrderBook/Matching/Quiet.antt =====
-- Linking and unlinking send nothing, and keep the pools' counts.
use trading_system.Prelude.{
  ℕ, ◌+◌, ◌&&◌, ◌≡◌, ◌≢◌, refl, ◌∙◌, Bool, true, false, Option, none, some, Result, ok, err, ◌>>=◌,
  arith, Ensures, returns, faults, Ensures-mono, Ensures-bind, Ensures-deref, Ensures-if,
  Ensures-require, ltb, out_of_range, Bool-cases, inl, inr, if◌then◌else◌, ◌==◌, update,
}
use trading_system.MemPool.{MemPool}
use trading_system.MemPool.Laws.{live, live-eq, deallocate-Ensures}
use trading_system.Types.{Side, me_max_num_clients, me_max_order_ids}
use trading_system.Exchange.OrderBook.State.{
  MeOrder, MeOrdersAtPrice, MeOrderBook, set_order, set_level, set_side_head, set_order_at_price,
  order_at, level_at, get_order_at_price,
}
use trading_system.Exchange.OrderBook.Levels.{register}
use trading_system.Exchange.OrderBook.Remove.{
  unlink_level, remove_order_at_price, unlink_order, remove_order, points_to,
}

pub record Quiet (b b' : MeOrderBook) : Type 0 where
  pub responses : b'.responses ≡ b.responses
  pub updates : b'.updates ≡ b.updates
  pub ticker : b'.ticker ≡ b.ticker
  pub next_order_id : b'.next_order_id ≡ b.next_order_id
  pub size : b'.orders_pool.size ≡ b.orders_pool.size
  pub in_use : (j : ℕ) → (b'.orders_pool.cells j).is_free ≡ (b.orders_pool.cells j).is_free

pub Quiet-refl : (b : MeOrderBook) → Quiet b b
Quiet-refl b = record {
  responses = refl;
  updates = refl;
  ticker = refl;
  next_order_id = refl;
  size = refl;
  in_use = λ j. refl;
}

module _ {b b' : MeOrderBook} (q : Quiet b b') where
  pub set_order-Quiet : (i : ℕ) (o : MeOrder) → Quiet b (set_order b' i o)
  unfolding set_order
  set_order-Quiet i o = ground (arith, q.in_use)

  pub set_level-Quiet : (l : ℕ) (v : MeOrdersAtPrice) → Quiet b (set_level b' l v)
  unfolding set_level
  set_level-Quiet l v = ground (arith, q.in_use)

  pub set_side_head-Quiet : (s : Side) (p : Option ℕ) → Quiet b (set_side_head b' s p)
  unfolding set_side_head
  set_side_head-Quiet s p = ground (arith, q.in_use)

  pub set_order_at_price-Quiet : (p : ℕ) (v : Option ℕ) → Quiet b (set_order_at_price b' p v)
  unfolding set_order_at_price
  set_order_at_price-Quiet p v = ground (arith, q.in_use)

pub level_pool-Quiet :
    {b b' : MeOrderBook}
    → Quiet b b'
    → (pool : MemPool MeOrdersAtPrice) → Quiet b (record b' { orders_at_price_pool = pool })
level_pool-Quiet q pool = record {
  responses = q.responses;
  updates = q.updates;
  ticker = q.ticker;
  next_order_id = q.next_order_id;
  size = q.size;
  in_use = q.in_use;
}

pub if-Quiet :
    {b x y : MeOrderBook} (c : Bool) → Quiet b x → Quiet b y → Quiet b (if c then x else y)
if-Quiet true p q = p
if-Quiet false p q = q

pub ruleset quiet = (
  Quiet-refl, set_order-Quiet, set_level-Quiet, set_side_head-Quiet, set_order_at_price-Quiet,
  if-Quiet, returns, Ensures-deref,
)

unlink_order-Quiet :
    (b : MeOrderBook) (l : Option ℕ) (i : ℕ) → Ensures (Quiet b) (unlink_order b l i)
unfolding unlink_order
unlink_order-Quiet b l i = search quiet depth 14

unlink_level-Quiet : (b : MeOrderBook) (l : ℕ) → Ensures (Quiet b) (unlink_level b l)
unfolding unlink_level
unlink_level-Quiet b l = search quiet depth 14

register-Quiet :
    {b b' : MeOrderBook} (c o : ℕ) (p : Option ℕ)
    → Quiet b b'
    → Ensures (Quiet b) (register b' c o p)
unfolding register
register-Quiet c o p q = Ensures-require (ltb c me_max_num_clients) out_of_range tt (
    Ensures-require (ltb o me_max_order_ids) out_of_range tt (
      returns (record {
        responses = q.responses;
        updates = q.updates;
        ticker = q.ticker;
        next_order_id = q.next_order_id;
        size = q.size;
        in_use = q.in_use;
      })))

remove_order_at_price-Quiet :
    (b : MeOrderBook) (l : ℕ) → Ensures (Quiet b) (remove_order_at_price b l)
unfolding remove_order_at_price
remove_order_at_price-Quiet b l =
    Ensures-bind
      (Ensures-if (points_to (level_at b l).next l) (search quiet) (unlink_level-Quiet b l))
      λ b1 q.
        Ensures-bind (deallocate-Ensures _ l)
          λ pool d. returns (level_pool-Quiet (set_order_at_price-Quiet q _ none) pool)

-- What `removeOrder` does besides relinking: cell `i` and no other is freed, and nothing is sent.
pub record Removed (b : MeOrderBook) (i : ℕ) (b' : MeOrderBook) : Type 0 where
  pub responses : b'.responses ≡ b.responses
  pub updates : b'.updates ≡ b.updates
  pub ticker : b'.ticker ≡ b.ticker
  pub next_order_id : b'.next_order_id ≡ b.next_order_id
  pub size : b'.orders_pool.size ≡ b.orders_pool.size
  pub one_less : live b'.orders_pool + 1 ≡ live b.orders_pool
  pub freed : (b'.orders_pool.cells i).is_free ≡ true
  pub others : (j : ℕ) → j ≢ i → (b'.orders_pool.cells j).is_free ≡ (b.orders_pool.cells j).is_free

pub remove_order-Removed : (b : MeOrderBook) (i : ℕ) → Ensures (Removed b i) (remove_order b i)
unfolding remove_order
remove_order-Removed b i =
    Ensures-bind
      (Ensures-if (points_to (order_at b i).next_order i && points_to (order_at b i).prev_order i)
        (Ensures-deref (get_order_at_price b (order_at b i).price)
          λ l. remove_order_at_price-Quiet b l)
        (unlink_order-Quiet b (get_order_at_price b (order_at b i).price) i))
      λ b1 q. Ensures-bind (register-Quiet _ _ none q) λ b2 q2.
        Ensures-bind (deallocate-Ensures _ i) λ pool d. returns (record {
          responses = q2.responses;
          updates = q2.updates;
          ticker = q2.ticker;
          next_order_id = q2.next_order_id;
          size = d.1 ∙ q2.size;
          one_less = d.0 ∙ live-eq b2.orders_pool b.orders_pool q2.size q2.in_use;
          freed = d.2;
          others = λ j n. d.3 j n ∙ q2.in_use j;
        })
