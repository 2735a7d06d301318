-- ===== src/Exchange/OrderBook/Shape/Append.antt =====
-- `AddOrderToPriceLevel` at a level that is there: the order goes in behind the last one.
use trading_system.Prelude.{
  ℕ, ◌≡◌, ◌≢◌, ap, ◌∙◌, some, arith, update, Returns, gives, Returns-deref,
}
use trading_system.Links.Ring.{Link, PutsIn}
use trading_system.Exchange.OrderBook.State.{MeOrderBook, order_at, level_at}
use trading_system.Exchange.OrderBook.Levels.{append_order}
use trading_system.Exchange.OrderBook.Shape.{next_order, prev_order}
use trading_system.Exchange.OrderBook.Shape.Relinking.{bare, Relinked-refl, set_next, set_prev}

-- Order `i` is linked in between `before` and `after`, and the rest is as in `b`.
pub record Joined (b : MeOrderBook) (i before after : ℕ) (b' : MeOrderBook) : Type 0 where
  pub links : PutsIn (next_order b) (prev_order b) (next_order b') (prev_order b') i before after
  pub data_of : (j : ℕ) → bare (order_at b' j) ≡ bare (order_at b j)
  pub used : (j : ℕ) → (b'.orders_pool.cells j).is_free ≡ (b.orders_pool.cells j).is_free
  pub size : b'.orders_pool.size ≡ b.orders_pool.size
  pub free : b'.orders_pool.next_free_index ≡ b.orders_pool.next_free_index
  pub rest : record b' { orders_pool = b.orders_pool } ≡ b

-- The order of the writes does not matter.
pub PutsIn-writes :
    {n p n' p' : Link} (i before after : ℕ)
    → i ≢ before
    → i ≢ after
    → ((j : ℕ) → n' j ≡ update (update n before (some i)) i (some after) j)
    → ((j : ℕ) → p' j ≡ update (update p i (some before)) after (some i) j)
    → PutsIn n p n' p' i before after
PutsIn-writes i before after o q e f = record {
  before_new = ground (arith, e before, o);
  new_after = ground (arith, e i);
  forth = λ j x y. ground (arith, e j, x, y);
  after_new = ground (arith, f after);
  new_before = ground (arith, f i, q);
  back = λ j x y. ground (arith, f j, x, y);
}

pub append_order-Joined :
    (b : MeOrderBook) (l i head last : ℕ)
    → (level_at b l).orders_head ≡ some head
    → (order_at b head).prev_order ≡ some last
    → i ≢ head
    → i ≢ last
    → Returns (Joined b i last head) (append_order b l i)
unfolding append_order
append_order-Joined b l i head last h p o q =
    let r1 = set_next (Relinked-refl b) last (some i) in
    let r2 = set_next r1 i (some head) in
    let r3 = set_prev r2 i _ in
    let r4 = set_prev r3 head (some i) in
    Returns-deref _ h (
      Returns-deref _ p (
        gives (record {
          links = PutsIn-writes i last head q o r4.forth (λ j.
              r4.back j
              ∙ ap (λ x. update (update (prev_order b) i x) head (some i) j) (r2.back head ∙ p));
          data_of = r4.data_of;
          used = r4.used;
          size = r4.size;
          free = r4.free;
          rest = r4.rest;
        })))
