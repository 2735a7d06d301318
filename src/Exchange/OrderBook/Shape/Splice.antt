-- ===== src/Exchange/OrderBook/Shape/Splice.antt =====
-- `AddOrderAtPrice`: a level goes in before another one.
use trading_system.Prelude.{
  ℕ, ◌≡◌, ◌≢◌, sym, ◌∙◌, some, arith, update, update_ne, Returns, gives, Returns-deref,
}
use trading_system.Links.Ring.{PutsIn}
use trading_system.Exchange.OrderBook.State.{MeOrderBook, level_at}
use trading_system.Exchange.OrderBook.Levels.{splice_level}
use trading_system.Exchange.OrderBook.Shape.{next_level, prev_level}
use trading_system.Exchange.OrderBook.Shape.Relinking.{
  bare_level, LevelsRelinked-refl, set_next_level, set_prev_level,
}

-- Level `l` is linked in between `before` and `after`, and the rest is as in `b`.
pub record LevelJoined (b : MeOrderBook) (l before after : ℕ) (b' : MeOrderBook) : Type 0 where
  pub links : PutsIn (next_level b) (prev_level b) (next_level b') (prev_level b') l before after
  pub data_of : (j : ℕ) → bare_level (level_at b' j) ≡ bare_level (level_at b j)
  pub used :
      (j : ℕ) → (b'.orders_at_price_pool.cells j).is_free ≡ (b.orders_at_price_pool.cells j).is_free
  pub size : b'.orders_at_price_pool.size ≡ b.orders_at_price_pool.size
  pub free : b'.orders_at_price_pool.next_free_index ≡ b.orders_at_price_pool.next_free_index
  pub rest : record b' { orders_at_price_pool = b.orders_at_price_pool } ≡ b

pub splice_level-LevelJoined :
    (b : MeOrderBook) (l before after : ℕ)
    → prev_level b after ≡ some before
    → next_level b before ≡ some after
    → l ≢ before
    → l ≢ after
    → Returns (LevelJoined b l before after) (splice_level b l after)
unfolding splice_level
splice_level-LevelJoined b l before after p n o q =
    let r1 = set_next_level (LevelsRelinked-refl b) l (next_level b before) in
    let r2 = set_prev_level r1 l (some before) in
    let e : update (next_level b) l (next_level b before) before ≡ some after =
      update_ne (next_level b) l before (next_level b before) (λ x. o (sym x)) ∙ n in
    let r3 = set_prev_level r2 after (some l) in
    let r4 = set_next_level r3 before (some l) in
    Returns-deref _ p (
      Returns-deref _ (r2.forth before ∙ e) (
        gives (record {
          links = record {
            before_new = ground (arith, r4.forth before);
            new_after = ground (arith, r4.forth l, o, n);
            forth = λ j x y. ground (arith, r4.forth j, x, y);
            after_new = ground (arith, r4.back after);
            new_before = ground (arith, r4.back l, q);
            back = λ j x y. ground (arith, r4.back j, x, y);
          };
          data_of = r4.data_of;
          used = r4.used;
          size = r4.size;
          free = r4.free;
          rest = r4.rest;
        })))
