-- ===== src/Exchange/OrderBook/Shape/Opened.antt =====
-- An order with a level of its own among the levels of its side.
use trading_system.Prelude.{
  ℕ, ◌<◌, ◌≡◌, ◌≢◌, refl, sym, ap, ◌∙◌, none, some, List, [], ◌∷◌, ◌++◌, arith, true, false, update,
  update_ne, Bool-cases, inl, inr,
}
use trading_system.Links.Distinct.{has, ◌∈◌, ◌∉◌}
use trading_system.Links.Ring.{Ring, Ring-same}
use trading_system.Links.Neighbours.{first}
use trading_system.Types.{Side, me_max_num_clients, me_max_order_ids}
use trading_system.Exchange.OrderBook.State.{
  MeOrder, MeOrdersAtPrice, MeOrderBook, order_at, level_at, side_head, get_order_at_price,
  price_to_index,
}
use trading_system.Exchange.OrderBook.Shape.{
  Queue, cells, IsOrder, IsQueue, AreSorted, Sides, next_order, prev_order, next_level, prev_level,
  price_of,
}
use trading_system.Exchange.OrderBook.Shape.Parts.{cells-append, AreQueues-join}
use trading_system.Exchange.OrderBook.Shape.Relinking.{bare, bare_level}
use trading_system.Exchange.OrderBook.Shape.Spare.{Spares, AreQueues-Spares}
use trading_system.Exchange.OrderBook.Shape.UnlinkLevel.{same_end}
use trading_system.Exchange.OrderBook.Shape.Around.{queue_of, side_of, cells_apart}
use trading_system.Exchange.OrderBook.Shape.Sorted.{AreSorted-on}
use trading_system.Exchange.OrderBook.Shape.Entered.{
  registered_with, registered_with-else, registered_with_self,
}
use trading_system.Exchange.OrderBook.Shape.Held.{AreQueues-parts, free_ne}

-- The level of order `o` in cell `i`, without its links.
abbrev pub level_of : MeOrder → ℕ → MeOrdersAtPrice
level_of o i = record {
  side = o.side;
  price = o.price;
  orders_head = some i;
  next = none;
  prev = none;
}

-- Order `o` is in the free cell `i` and registered, alone in level `l`, a free cell too, which has joined
-- the levels `ls` of side `s` and made them `ms`; the rest is as in `b`.
pub record Opened (b : MeOrderBook) (o : MeOrder) (i l : ℕ) (s : Side) (ls ms : List ℕ)
    (b' : MeOrderBook) : Type 0 where
  pub order_was_free : (b.orders_pool.cells i).is_free ≡ true
  pub order_in_range : i < b.orders_pool.size
  pub entered : bare (order_at b' i) ≡ bare o
  pub alone : (next_order b' i ≡ some i) × (prev_order b' i ≡ some i)
  pub orders : (j : ℕ) → j ≢ i → order_at b' j ≡ order_at b j
  pub used : (j : ℕ) → j ≢ i → (b'.orders_pool.cells j).is_free ≡ (b.orders_pool.cells j).is_free
  pub in_use : (b'.orders_pool.cells i).is_free ≡ false
  pub size : b'.orders_pool.size ≡ b.orders_pool.size
  pub level_was_free : (b.orders_at_price_pool.cells l).is_free ≡ true
  pub level_in_range : l < b.orders_at_price_pool.size
  pub level : bare_level (level_at b' l) ≡ level_of o i
  pub levels : (k : ℕ) → k ≢ l → bare_level (level_at b' k) ≡ bare_level (level_at b k)
  pub level_used :
      (k : ℕ)
      → k ≢ l
      → (b'.orders_at_price_pool.cells k).is_free ≡ (b.orders_at_price_pool.cells k).is_free
  pub level_in_use : (b'.orders_at_price_pool.cells l).is_free ≡ false
  pub level_size : b'.orders_at_price_pool.size ≡ b.orders_at_price_pool.size
  pub ring : Ring (next_level b') (prev_level b') ms
  pub best : side_head b' s ≡ first ms
  pub other_best : (t : Side) → same_end s t ≡ false → side_head b' t ≡ side_head b t
  pub forth : (k : ℕ) → k ∉ ls → k ≢ l → next_level b' k ≡ next_level b k
  pub back : (k : ℕ) → k ∉ ls → k ≢ l → prev_level b' k ≡ prev_level b k
  pub table :
      b'.price_to_orders_at_price
      ≡ update b.price_to_orders_at_price (price_to_index o.price) (some l)
  pub registry : b'.cid_oid_to_order ≡ registered_with b.cid_oid_to_order o i

module _ {b b' : MeOrderBook} {s : Side} {o : MeOrder} {i l : ℕ} {ls ms : List ℕ}
    (free_id : b.cid_oid_to_order o.client_id o.client_order_id ≡ none)
    (free_price : get_order_at_price b o.price ≡ none) (d : Opened b o i l s ls ms b') where
  order_ne : {t : Side} {q : Queue} → IsQueue b t q → (j : ℕ) → j ∈ q.orders → j ≢ i
  order_ne v j m e =
      let taken = (v.each j m).in_use in
      let free = ap (λ k. (b.orders_pool.cells k).is_free) e ∙ d.order_was_free in cc

  pub level_ne : {t : Side} {q : Queue} → IsQueue b t q → q.cell ≢ l
  level_ne v e =
      let taken = v.in_use in
      let free = ap (λ k. (b.orders_at_price_pool.cells k).is_free) e ∙ d.level_was_free in cc

  index_ne :
      {t : Side} {q : Queue}
      → IsQueue b t q
      → price_to_index (price_of b q.cell) ≢ price_to_index o.price
  index_ne v e =
      let there = v.at_price in let none_there = ap b.price_to_orders_at_price e ∙ free_price in cc

  pub Opened-Spares : {t : Side} (q : Queue) → IsQueue b t q → Spares b b' q
  Opened-Spares q v = record {
    level = d.levels q.cell (level_ne v);
    level_used = d.level_used q.cell (level_ne v);
    level_size = d.level_size;
    table =
        ap (λ f. f (price_to_index (price_of b q.cell))) d.table
        ∙ update_ne b.price_to_orders_at_price (price_to_index o.price)
            (price_to_index (price_of b q.cell)) (some l) (index_ne v);
    orders = λ j m. d.orders j (order_ne v j m);
    used = λ j m. d.used j (order_ne v j m);
    size = d.size;
    registry = λ j m.
        ap (λ f. f (order_at b j).client_id (order_at b j).client_order_id) d.registry
        ∙ registered_with-else b.cid_oid_to_order o i (order_at b j).client_id
            (order_at b j).client_order_id j free_id (v.each j m).registered;
  }

  same_price : price_of b' l ≡ o.price
  same_price = ap (λ v. v.price) d.level

  opener :
      o.side ≡ s
      → o.client_id < me_max_num_clients
      → o.client_order_id < me_max_order_ids
      → IsOrder b' s (price_of b' l) i
  opener side client order =
      let same_client = ap (λ y. y.client_id) d.entered in
      let same_id = ap (λ y. y.client_order_id) d.entered in
      record {
        side = ap (λ y. y.side) d.entered ∙ side;
        price = ap (λ y. y.price) d.entered ∙ sym same_price;
        in_range = rw d.size d.order_in_range;
        in_use = d.in_use;
        client = rw same_client client;
        order = rw same_id order;
        registered =
            rw (same_client, same_id)
              (ap (λ f. f o.client_id o.client_order_id) d.registry
                ∙ registered_with_self b.cid_oid_to_order o i);
      }

  pub Opened-IsQueue :
      o.side ≡ s
      → o.client_id < me_max_num_clients
      → o.client_order_id < me_max_order_ids
      → IsQueue b' s (queue_of l (i ∷ []))
  Opened-IsQueue side client order = record {
    side = ap (λ v. v.side) d.level ∙ side;
    head = ap (λ v. v.orders_head) d.level;
    holds = λ e. cc;
    ring = record { distinct = (refl, tt); linked = d.alone };
    at_price =
        ap (get_order_at_price b') same_price
        ∙ ap (λ f. f (price_to_index o.price)) d.table
        ∙ ground arith;
    in_range = rw d.level_size d.level_in_range;
    in_use = d.level_in_use;
    each = λ j m. let same : j ≡ i = ground (arith, m) in rw same (opener side client order);
  }

  -- The two sides of the book with the new level.
  pub Opened-Sides :
      {t : Side} (xs ys others : List Queue)
      → same_end s t ≡ false
      → Sides b s t (xs ++ ys) others
      → ls ≡ cells (xs ++ ys)
      → ms ≡ cells xs ++ (l ∷ cells ys)
      → AreSorted b' s ms
      → o.side ≡ s
      → o.client_id < me_max_num_clients
      → o.client_order_id < me_max_order_ids
      → Sides b' s t (xs ++ (queue_of l (i ∷ []) ∷ ys)) others
  Opened-Sides {t} xs ys others opposed h old new sorted side client order =
      let all : cells (xs ++ (queue_of l (i ∷ []) ∷ ys)) ≡ ms =
        cells-append xs (queue_of l (i ∷ []) ∷ ys) ∙ sym new in
      let (front, behind) = AreQueues-parts b s xs ys h.mine.queues in
      let apart : (k : ℕ) → k ∈ cells others → k ∉ ls = λ k m. elim (Bool-cases (has k ls)) [
        | inl e ↦ absurd (
            cells_apart b opposed (side_of b (xs ++ ys) h.mine.queues k (ap (has k) (sym old) ∙ e))
              (side_of b others h.theirs.queues k m) refl)
        | inr e ↦ e
      ] in
      let ne : (k : ℕ) → k ∈ cells others → k ≢ l =
        λ k m e. free_ne b t others l h.theirs.queues d.level_was_free k m e in
      record {
        mine = record {
          best = d.best ∙ ap first (sym all);
          ring = rw all d.ring;
          queues =
              AreQueues-join b' s xs (queue_of l (i ∷ []) ∷ ys)
                (AreQueues-Spares xs front λ q v m. Opened-Spares q v)
                (
                  Opened-IsQueue side client order,
                  AreQueues-Spares ys behind λ q v m. Opened-Spares q v,
                );
          sorted = rw all sorted;
        };
        theirs = record {
          best = d.other_best t opposed ∙ h.theirs.best;
          ring =
              Ring-same (cells others) h.theirs.ring (λ k m. d.forth k (apart k m) (ne k m))
                (λ k m. d.back k (apart k m) (ne k m));
          queues = AreQueues-Spares others h.theirs.queues λ q v m. Opened-Spares q v;
          sorted =
              AreSorted-on b b' t (cells others) (λ k m. ap (λ v. v.price) (d.levels k (ne k m)))
                h.theirs.sorted;
        };
      }
