-- ===== src/Exchange/OrderBook/Shape/RemoveLevel.antt =====
-- What `removeOrderAtPrice` does to a book: one level is gone, and its cell is free.
use trading_system.Prelude.{
  ℕ, ◌<◌, ◌≡◌, ◌≢◌, ap, ◌∙◌, Option, none, some, true, false, arith, if◌then◌else◌, ok, ◌>>=◌,
  Returns, gives, Returns-bind, update,
}
use trading_system.MemPool.{deallocate}
use trading_system.MemPool.Laws.{deallocate-Deallocated}
use trading_system.Links.Ring.{Link}
use trading_system.Types.{Side}
use trading_system.Exchange.OrderBook.State.{
  MeOrderBook, level_at, side_head, set_order_at_price, price_to_index,
}
use trading_system.Exchange.OrderBook.Remove.{remove_order_at_price, points_to}
use trading_system.Exchange.OrderBook.Shape.{next_level, prev_level}
use trading_system.Exchange.OrderBook.Shape.Relinking.{bare_level}
use trading_system.Exchange.OrderBook.Shape.UnlinkLevel.{
  LevelOut, set_head-LevelOut, same_end, unlink_level-LevelOut, best_without,
}

-- Level `l` is gone: the others are linked by `n` and `p`, the best level of its side is `best`, no
-- level stands at its price, and its cell is free.
pub record LevelGone (b : MeOrderBook) (l : ℕ) (n p : Link) (best : Option ℕ) (b' : MeOrderBook)
    : Type 0 where
  pub forth : (j : ℕ) → j ≢ l → next_level b' j ≡ n j
  pub back : (j : ℕ) → j ≢ l → prev_level b' j ≡ p j
  pub data_of : (j : ℕ) → bare_level (level_at b' j) ≡ bare_level (level_at b j)
  pub used :
      (j : ℕ)
      → j ≢ l
      → (b'.orders_at_price_pool.cells j).is_free ≡ (b.orders_at_price_pool.cells j).is_free
  pub freed : (b'.orders_at_price_pool.cells l).is_free ≡ true
  pub size : b'.orders_at_price_pool.size ≡ b.orders_at_price_pool.size
  pub free : b'.orders_at_price_pool.next_free_index ≡ b.orders_at_price_pool.next_free_index
  pub heads :
      (s : Side) → side_head b' s ≡ (if same_end s (level_at b l).side then best else side_head b s)
  pub orders : b'.orders_pool ≡ b.orders_pool
  pub registry : b'.cid_oid_to_order ≡ b.cid_oid_to_order
  pub table :
      b'.price_to_orders_at_price
      ≡ update b.price_to_orders_at_price (price_to_index (level_at b l).price) none

release-LevelGone :
    {b : MeOrderBook} {l : ℕ} {n p : Link} {best : Option ℕ} (b1 : MeOrderBook)
    → l < b.orders_at_price_pool.size
    → (b.orders_at_price_pool.cells l).is_free ≡ false
    → LevelOut b l n p best b1
    → Returns (LevelGone b l n p best) (do
      let b2 = set_order_at_price b1 (level_at b1 l).price none
      pool ← deallocate b2.orders_at_price_pool l
      ok (record b2 { orders_at_price_pool = pool }))
unfolding set_order_at_price
release-LevelGone {b} {l} {n} {p} {best} b1 inside used d =
    let (pool, e, f) =
      deallocate-Deallocated b1.orders_at_price_pool l (rw d.size inside) (d.used l ∙ used) in
    rw e (
      gives (record {
        forth = λ j o. ap (λ v. v.next) (f.same_objects j) ∙ d.forth j o;
        back = λ j o. ap (λ v. v.prev) (f.same_objects j) ∙ d.back j o;
        data_of = λ j. ap (λ v. bare_level v) (f.same_objects j) ∙ d.data_of j;
        used = λ j o. f.others j o ∙ d.used j;
        freed = f.freed;
        size = f.same_size ∙ d.size;
        free = f.same_next ∙ d.free;
        heads = d.heads;
        orders = d.orders;
        registry = d.registry;
        table =
            ap (λ t. update t (price_to_index (level_at b1 l).price) none) d.table
            ∙ ap (λ v. update b.price_to_orders_at_price (price_to_index v.price) none)
                (d.data_of l);
      }))

-- The only level of its side leaves.
pub only_level-LevelGone :
    (b : MeOrderBook) (l : ℕ)
    → l < b.orders_at_price_pool.size
    → (b.orders_at_price_pool.cells l).is_free ≡ false
    → next_level b l ≡ some l
    → Returns (LevelGone b l (next_level b) (prev_level b) none) (remove_order_at_price b l)
unfolding remove_order_at_price
only_level-LevelGone b l inside used n =
    let alone : points_to (next_level b l) l ≡ true = ground (arith, n) in
    rw alone (release-LevelGone _ inside used (set_head-LevelOut b l none))

-- A level that has others beside it leaves.
pub other_level-LevelGone :
    (b : MeOrderBook) (l before after : ℕ)
    → l < b.orders_at_price_pool.size
    → (b.orders_at_price_pool.cells l).is_free ≡ false
    → prev_level b l ≡ some before
    → next_level b l ≡ some after
    → before ≢ l
    → after ≢ l
    → Returns
        (LevelGone b l
          (update (next_level b) before (some after))
          (update (prev_level b) after (some before))
          (best_without (side_head b (level_at b l).side) l (some after)))
        (remove_order_at_price b l)
unfolding remove_order_at_price
other_level-LevelGone b l before after inside used p n ne ne' =
    let company : points_to (next_level b l) l ≡ false = ground (arith, n, ne') in
    rw company (
      Returns-bind (unlink_level-LevelOut b l before after p n ne)
        λ b1 d. release-LevelGone b1 inside used d)
