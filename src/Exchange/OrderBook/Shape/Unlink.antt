-- ===== src/Exchange/OrderBook/Shape/Unlink.antt =====
-- What `removeOrder` does to the links of the orders of a level.
use trading_system.Prelude.{
  ℕ, ◌≡◌, ◌≢◌, ap, ◌∙◌, Option, none, some, inl, inr, arith, if◌then◌else◌, Bool-cases, Returns,
  gives, Returns-deref, update,
}
use trading_system.MemPool.{read}
use trading_system.Links.Ring.{Link}
use trading_system.Exchange.OrderBook.State.{
  MeOrdersAtPrice, MeOrderBook, order_at, level_at, set_order, set_level,
}
use trading_system.Exchange.OrderBook.Remove.{unlink_order, points_to}
use trading_system.Exchange.OrderBook.Shape.{next_order, prev_order}
use trading_system.Exchange.OrderBook.Shape.Relinking.{
  bare, Relinked, Relinked-refl, set_next, set_prev,
}

-- The level after order `i` has left it, the next one being `after`.
abbrev pub without : MeOrdersAtPrice → ℕ → Option ℕ → MeOrdersAtPrice
without v i after = if points_to v.orders_head i then record v { orders_head = after } else v

-- The orders but `i` are linked by `n` and `p`, level `l` is without `i`, and the rest is as in `b`.
pub record Detached (b : MeOrderBook) (l i : ℕ) (n p : Link) (b' : MeOrderBook) : Type 0 where
  pub forth : (j : ℕ) → j ≢ i → next_order b' j ≡ n j
  pub back : (j : ℕ) → j ≢ i → prev_order b' j ≡ p j
  pub data_of : (j : ℕ) → bare (order_at b' j) ≡ bare (order_at b j)
  pub used : (j : ℕ) → (b'.orders_pool.cells j).is_free ≡ (b.orders_pool.cells j).is_free
  pub size : b'.orders_pool.size ≡ b.orders_pool.size
  pub free : b'.orders_pool.next_free_index ≡ b.orders_pool.next_free_index
  pub level : level_at b' l ≡ without (level_at b l) i (n i)
  pub levels : (k : ℕ) → k ≢ l → level_at b' k ≡ level_at b k
  pub level_used :
      (k : ℕ) → (b'.orders_at_price_pool.cells k).is_free ≡ (b.orders_at_price_pool.cells k).is_free
  pub level_size : b'.orders_at_price_pool.size ≡ b.orders_at_price_pool.size
  pub level_free : b'.orders_at_price_pool.next_free_index ≡ b.orders_at_price_pool.next_free_index
  pub rest :
      record b' { orders_pool = b.orders_pool; orders_at_price_pool = b.orders_at_price_pool } ≡ b

-- The last two statements of the branch.
abbrev detach : MeOrderBook → ℕ → ℕ → MeOrderBook
detach b2 l i =
    let b3 =
      if points_to (level_at b2 l).orders_head i
      then set_level b2 l (record (level_at b2 l) { orders_head = (order_at b2 i).next_order })
      else b2 in
    set_order b3 i (record (order_at b3 i) { next_order = none; prev_order = none })

abbrev with_levels : MeOrderBook → MeOrderBook → MeOrderBook
with_levels b x = record x { orders_at_price_pool = b.orders_at_price_pool }

detach-Detached :
    (b b2 : MeOrderBook) (l i : ℕ) (n p : Link)
    → Relinked b b2 n p
    → Detached b l i n p (detach b2 l i)
unfolding set_order set_level
detach-Detached b b2 l i n p r = elim (Bool-cases (points_to (level_at b2 l).orders_head i)) [
  | inl e ↦ rw e (record {
    forth = λ j o. ground (arith, r.forth j, o);
    back = λ j o. ground (arith, r.back j, o);
    data_of = λ j. ground (arith, r.data_of j);
    used = λ j. ground (arith, r.used j);
    size = r.size;
    free = r.free;
    level = ground (arith, same l, e, r.forth i);
    levels = λ k o. ground (arith, same k, o);
    level_used = λ k. ground (arith, same_used k);
    level_size = ap (λ x. x.size) pool;
    level_free = ap (λ x. x.next_free_index) pool;
    rest = ap (with_levels b) r.rest;
  })
  | inr e ↦ rw e (record {
    forth = λ j o. ground (arith, r.forth j, o);
    back = λ j o. ground (arith, r.back j, o);
    data_of = λ j. ground (arith, r.data_of j);
    used = λ j. ground (arith, r.used j);
    size = r.size;
    free = r.free;
    level = ground (arith, same l, e, r.forth i);
    levels = λ k o. ground (arith, same k, o);
    level_used = λ k. ground (arith, same_used k);
    level_size = ap (λ x. x.size) pool;
    level_free = ap (λ x. x.next_free_index) pool;
    rest = ap (with_levels b) r.rest;
  })
]
  where
    pool : b2.orders_at_price_pool ≡ b.orders_at_price_pool
    pool = ap (λ x. x.orders_at_price_pool) r.rest

    same : (k : ℕ) → level_at b2 k ≡ level_at b k
    same k = ap (λ x. read x k) pool

    same_used :
        (k : ℕ)
        → (b2.orders_at_price_pool.cells k).is_free ≡ (b.orders_at_price_pool.cells k).is_free
    same_used k = ap (λ x. (x.cells k).is_free) pool

Detached-links :
    {b b' : MeOrderBook} {l i : ℕ} {n p n' p' : Link}
    → ((j : ℕ) → n j ≡ n' j)
    → ((j : ℕ) → p j ≡ p' j)
    → Detached b l i n p b'
    → Detached b l i n' p' b'
Detached-links {b} {b'} {l} {i} e f d = record {
  forth = λ j o. d.forth j o ∙ e j;
  back = λ j o. d.back j o ∙ f j;
  data_of = d.data_of;
  used = d.used;
  size = d.size;
  free = d.free;
  level = d.level ∙ ap (λ x. without (level_at b l) i x) (e i);
  levels = d.levels;
  level_used = d.level_used;
  level_size = d.level_size;
  level_free = d.level_free;
  rest = d.rest;
}

pub unlink_order-Detached :
    (b : MeOrderBook) (l i before after : ℕ)
    → (order_at b i).prev_order ≡ some before
    → (order_at b i).next_order ≡ some after
    → before ≢ i
    → Returns
        (Detached b l i
          (update (next_order b) before (some after))
          (update (prev_order b) after (some before)))
        (unlink_order b (some l) i)
unfolding unlink_order
unlink_order-Detached b l i before after p n ne =
    let r1 = set_next (Relinked-refl b) before (order_at b i).next_order in
    let still : update (next_order b) before (order_at b i).next_order i ≡ some after =
      ground (arith, n, ne) in
    let r2 =
      set_prev r1 after
        (order_at
          (set_order b before
            (record (order_at b before) { next_order = (order_at b i).next_order }))
          i).prev_order in
    Returns-deref _ p (
      Returns-deref _ (r1.forth i ∙ still) (
        gives (
          Detached-links (λ j. ap (λ x. update (next_order b) before x j) n)
            (λ j. ap (λ x. update (prev_order b) after x j) (r1.back i ∙ p))
            (detach-Detached b _ l i _ _ r2))))
