-- ===== src/Exchange/OrderBook/Shape/Queueing.antt =====
-- `add` of an order whose price has a level: it waits behind the orders that are there.
use trading_system.Prelude.{
  ℕ, ◌+◌, ◌%◌, ◌^◌, ◌<◌, ◌≤◌, ◌≡◌, ◌≢◌, refl, sym, ap, ◌∙◌, none, some, List, [], ◌∷◌, ◌++◌, arith,
  true, false, Returns, gives, Returns-bind, ok, lt→ltb, ltb,
}
use trading_system.MemPool.{MemPool, occupy, read}
use trading_system.MemPool.Laws.{Allocated, allocate-ok, live, IsValid}
use trading_system.Links.Distinct.{◌∈◌}
use trading_system.Links.Ring.{last, last-in, Chain-last}
use trading_system.Messages.{MeMarketUpdate}
use trading_system.Types.{Side, me_max_num_clients, me_max_order_ids}
use trading_system.Exchange.OrderBook.State.{
  MeOrder, MeOrderBook, order_at, level_at, side_head, get_order_at_price, get_priority,
  send_market_update,
}
use trading_system.Exchange.OrderBook.Levels.{register, add_order_to_price_level}
use trading_system.Exchange.OrderBook.Handlers.{Incoming, rest_order}
use trading_system.Exchange.OrderBook.Shape.{Queue, Sides, next_order, prev_order, price_of}
use trading_system.Exchange.OrderBook.Shape.Relinking.{bare}
use trading_system.Exchange.OrderBook.Shape.UnlinkLevel.{same_end}
use trading_system.Exchange.OrderBook.Shape.Append.{Joined, append_order-Joined}
use trading_system.Exchange.OrderBook.Shape.Around.{queue_of, Ladder-Around}
use trading_system.Exchange.OrderBook.Shape.Entered.{Entered, registered_with}
use trading_system.Exchange.OrderBook.Shape.Enlarged.{Entered-Sides}

-- The pool with a fresh order.
module _ {old pool : MemPool MeOrder} {o : MeOrder} {i : ℕ} (c : Allocated old o i pool) where
  pub cell_else : (j : ℕ) → j ≢ i → pool.cells j ≡ old.cells j
  cell_else j n = ap (λ f. f j) c.cells_after ∙ ground (arith, n)

  pub cell_self : pool.cells i ≡ (occupy old i o).cells i
  cell_self = ap (λ f. f i) c.cells_after

  pub own_order : read pool i ≡ o
  own_order = ap (λ y. y.object) cell_self ∙ ground arith

-- A fresh order is linked in and registered.
module _ {b b1 : MeOrderBook} {o : MeOrder} {i before after : ℕ} {pool : MemPool MeOrder}
    (c : Allocated b.orders_pool o i pool)
    (d : Joined (record b { orders_pool = pool }) i before after b1) where
  Joined-Entered :
      i < b.orders_pool.size
      → (us : List MeMarketUpdate)
      → Entered b o i before after (record b1 {
        cid_oid_to_order = registered_with b1.cid_oid_to_order (order_at b1 i) i;
        updates = us;
      })
  Joined-Entered inside us = record {
    was_free = c.was_free;
    links = record {
      before_new = d.links.before_new;
      new_after = d.links.new_after;
      forth = λ j x y. d.links.forth j x y ∙ ap (λ v. v.object.next_order) (cell_else c j y);
      after_new = d.links.after_new;
      new_before = d.links.new_before;
      back = λ j x y. d.links.back j x y ∙ ap (λ v. v.object.prev_order) (cell_else c j y);
    };
    entered = d.data_of i ∙ ap bare (own_order c);
    data_of = λ j n. d.data_of j ∙ ap (λ v. bare v.object) (cell_else c j n);
    used = λ j n. d.used j ∙ ap (λ v. v.is_free) (cell_else c j n);
    in_use = d.used i ∙ ap (λ v. v.is_free) (cell_self c) ∙ ground arith;
    in_range = inside;
    size = d.size ∙ c.same_size;
    levels = ap (λ y. y.orders_at_price_pool) d.rest;
    heads = λ s. ap (λ y. side_head y s) d.rest;
    table = ap (λ y. y.price_to_orders_at_price) d.rest;
    registry =
        ap (λ f. registered_with f (order_at b1 i) i) (ap (λ y. y.cid_oid_to_order) d.rest)
        ∙ ap (λ y. registered_with b.cid_oid_to_order y i) (d.data_of i ∙ ap bare (own_order c));
  }

-- `AddOrderToPriceLevel` of a fresh order at level `l`, whose first order is `x` and whose last one is
-- `before`.
add_order_to_price_level-Entered :
    {b : MeOrderBook} {o : MeOrder} {i : ℕ} {pool : MemPool MeOrder} (l x before : ℕ)
    → Allocated b.orders_pool o i pool
    → get_order_at_price b o.price ≡ some l
    → (level_at b l).orders_head ≡ some x
    → prev_order b x ≡ some before
    → i ≢ x
    → i ≢ before
    → i < b.orders_pool.size
    → o.client_id < me_max_num_clients
    → o.client_order_id < me_max_order_ids
    → Returns
        (λ b'. (us : List MeMarketUpdate) → Entered b o i before x (record b' { updates = us }))
        (add_order_to_price_level (record b { orders_pool = pool }) i)
unfolding add_order_to_price_level register
add_order_to_price_level-Entered {b} {o} {i} {pool} l x before c at_level head p ne ne' inside
      client order =
    let at : get_order_at_price b (read pool i).price ≡ some l =
      ap (λ y. get_order_at_price b y.price) (own_order c) ∙ at_level in
    let back : (read pool x).prev_order ≡ some before =
      ap (λ v. v.object.prev_order) (cell_else c x (λ e. ne (sym e))) ∙ p in
    rw at (
      Returns-bind
        (append_order-Joined (record b { orders_pool = pool }) l i x before head back ne ne')
        λ b1 d.
          let same : bare (order_at b1 i) ≡ bare o = d.data_of i ∙ ap bare (own_order c) in
          let client_in : ltb (order_at b1 i).client_id me_max_num_clients ≡ true =
            lt→ltb (order_at b1 i).client_id me_max_num_clients
              (rw (ap (λ y. y.client_id) same) client) in
          let order_in : ltb (order_at b1 i).client_order_id me_max_order_ids ≡ true =
            lt→ltb (order_at b1 i).client_order_id me_max_order_ids
              (rw (ap (λ y. y.client_order_id) same) order) in
          rw (client_in, order_in, register) (gives λ us. Joined-Entered c d inside us))

-- The order that `add` lets rest.
abbrev pub queued : MeOrderBook → Incoming → ℕ → ℕ → MeOrder
queued b a left priority = record {
  ticker_id = b.ticker;
  client_id = a.client_id;
  client_order_id = a.client_order_id;
  market_order_id = a.market_order_id;
  side = a.side;
  price = a.price;
  qty = left;
  priority = priority;
  next_order = none;
  prev_order = none;
}

get_priority-last :
    (b : MeOrderBook) (p l x before : ℕ)
    → get_order_at_price b p ≡ some l
    → (level_at b l).orders_head ≡ some x
    → prev_order b x ≡ some before
    → get_priority b p ≡ ok (((order_at b before).priority + 1) % 2 ^ 64)
unfolding get_priority
get_priority-last b p l x before e f g = rw (get_priority, e, f, g) refl

-- What `add` leaves of the book when an order goes into cell `i`, behind the orders `x ∷ xs` of level `l`.
pub record Queued (b : MeOrderBook) (a : Incoming) (left : ℕ) (s t : Side) (qs : List Queue)
    (l x : ℕ) (xs : List ℕ) (i : ℕ) (rs others : List Queue) (b' : MeOrderBook) : Type 0 where
  pub sides : Sides b' s t (qs ++ (queue_of l (x ∷ xs ++ (i ∷ [])) ∷ rs)) others
  pub entered :
      bare (order_at b' i) ≡ queued b a left (((order_at b (last x xs)).priority + 1) % 2 ^ 64)
  pub data_of : (j : ℕ) → j ≢ i → bare (order_at b' j) ≡ bare (order_at b j)

-- On a well-formed book with two free cells for orders, what is left of an order at the price of a level
-- of its side, under a client and an identifier within the table and free, is stored behind all orders of
-- that level, with the priority after that of the last one; the book is well formed again, the other levels and orders
-- being as they were, in the same order.
pub rest_order-Queued :
    {b : MeOrderBook} {s t : Side} (a : Incoming) (qty left : ℕ) (qs : List Queue) (l x : ℕ)
    (xs : List ℕ) (rs others : List Queue)
    → same_end s t ≡ false
    → Sides b s t (qs ++ (queue_of l (x ∷ xs) ∷ rs)) others
    → a.side ≡ s
    → a.price ≡ price_of b l
    → a.client_id < me_max_num_clients
    → a.client_order_id < me_max_order_ids
    → b.cid_oid_to_order a.client_id a.client_order_id ≡ none
    → IsValid b.orders_pool
    → live b.orders_pool + 2 ≤ b.orders_pool.size
    → Returns
        (Queued b a left s t qs l x xs b.orders_pool.next_free_index rs others)
        (rest_order b a qty left)
unfolding rest_order send_market_update
rest_order-Queued {b} a qty left qs l x xs rs others opposed h side price client order free_id valid
      room =
    let q = (Ladder-Around qs (queue_of l (x ∷ xs)) rs h.mine).middle in
    let at_level : get_order_at_price b a.price ≡ some l =
      ap (get_order_at_price b) price ∙ q.at_price in
    let back : prev_order b x ≡ some (last x xs) =
      (Chain-last (next_order b) (prev_order b) x xs x q.ring.linked).1 in
    let i = b.orders_pool.next_free_index in
    let fresh : (j : ℕ) → j ∈ (x ∷ xs) → i ≢ j =
      λ j m e. ground (arith, valid.next_is_free, (q.each j m).in_use, e) in
    let o = queued b a left (((order_at b (last x xs)).priority + 1) % 2 ^ 64) in
    let (pool, e, c) = allocate-ok b.orders_pool o valid room in
    rw (get_priority-last b a.price l x (last x xs) at_level q.head back, e)
      (Returns-bind
        (add_order_to_price_level-Entered l x (last x xs) c at_level q.head back
          (fresh x (ground arith)) (fresh (last x xs) (last-in x xs)) valid.in_range client order)
        λ b1 d. gives (record {
          sides =
              Entered-Sides qs l x i (last x xs) xs rs others opposed h free_id back (d _) side
                price client order;
          entered = (d b1.updates).entered;
          data_of = (d b1.updates).data_of;
        }))
