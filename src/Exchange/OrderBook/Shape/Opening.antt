-- ===== src/Exchange/OrderBook/Shape/Opening.antt =====
-- `add` of an order whose price has no level yet: the order opens one, in its place on its side.
use trading_system.Prelude.{
  ℕ, ◌<◌, ◌≡◌, ◌≢◌, refl, sym, ap, ◌∙◌, none, some, List, [], arith, true, update, inl, inr,
  Bool-cases, Returns, gives, Returns-bind, ok, lt→ltb, ltb,
}
use trading_system.MemPool.{MemPool, allocate, read}
use trading_system.MemPool.Laws.{Allocated}
use trading_system.Links.Distinct.{has, ◌∈◌, ◌∉◌}
use trading_system.Links.Ring.{Ring-same}
use trading_system.Links.Pigeonhole.{length_le-bound}
use trading_system.Exchange.OrderBook.Shape.Spare.{AreSorted-same}
use trading_system.Messages.{MeMarketUpdate}
use trading_system.Types.{Side, me_max_num_clients, me_max_order_ids}
use trading_system.Exchange.OrderBook.State.{
  MeOrder, MeOrdersAtPrice, MeOrderBook, order_at, level_at, set_order, get_order_at_price,
  price_to_index,
}
use trading_system.Exchange.OrderBook.Levels.{
  open_level, add_order_at_price, add_order_to_price_level, register,
}
use trading_system.Exchange.OrderBook.Shape.{Queue, cells, Ladder, AreSorted, price_of}
use trading_system.Exchange.OrderBook.Shape.Relinking.{bare, bare_level}
use trading_system.Exchange.OrderBook.Shape.Sorted.{IsTraded, AreSorted-in, AreSorted-on}
use trading_system.Exchange.OrderBook.Shape.Seated.{Seated}
use trading_system.Exchange.OrderBook.Shape.Seating.{seated, tabled, add_order_at_price-Seated}
use trading_system.Exchange.OrderBook.Shape.Entered.{registered_with}
use trading_system.Exchange.OrderBook.Shape.Queueing.{cell_else, cell_self, own_order}
use trading_system.Exchange.OrderBook.Shape.Opened.{Opened, level_of}
use trading_system.Exchange.OrderBook.Shape.Held.{cells-IsHeld, free_ne}

-- The order linked to itself, and the book with it and its level, before the level is linked in.
abbrev self_linked : MeOrder → ℕ → MeOrder
self_linked o i = record o { next_order = some i; prev_order = some i }

abbrev pub prepared :
    MeOrderBook → MemPool MeOrder → ℕ → MeOrder → MemPool MeOrdersAtPrice → MeOrderBook
prepared b pool i o levels =
    record (set_order (record b { orders_pool = pool }) i (self_linked o i)) {
      orders_at_price_pool = levels;
    }

module _ (b : MeOrderBook) {o : MeOrder} {i l : ℕ} {pool : MemPool MeOrder}
    {levels : MemPool MeOrdersAtPrice} (c : Allocated b.orders_pool o i pool)
    (e : Allocated b.orders_at_price_pool (level_of o i) l levels) where
  level_same : (k : ℕ) → k ≢ l → level_at (prepared b pool i o levels) k ≡ level_at b k
  unfolding set_order
  level_same k n = ap (λ v. v.object) (ap (λ f. f k) e.cells_after) ∙ ground (arith, n)

  level_own : level_at (prepared b pool i o levels) l ≡ level_of o i
  unfolding set_order
  level_own = ap (λ v. v.object) (ap (λ f. f l) e.cells_after) ∙ ground arith

  Seated-Opened :
      {b1 : MeOrderBook} (s : Side) (ls ms : List ℕ) (us : List MeMarketUpdate)
      → Seated (tabled (prepared b pool i o levels) l) s l ls ms b1
      → i < b.orders_pool.size
      → l < b.orders_at_price_pool.size
      → Opened b o i l s ls ms (record b1 {
        cid_oid_to_order = registered_with b1.cid_oid_to_order (order_at b1 i) i;
        updates = us;
      })
  unfolding set_order
  Seated-Opened {b1} s ls ms us d inside level_inside =
      let order : (j : ℕ) → j ≢ i → order_at b1 j ≡ order_at b j =
        λ j n. ap (λ x. read x j) d.orders ∙ ground (arith, cell_else c j n, n) in
      let own : order_at b1 i ≡ self_linked o i = ap (λ x. read x i) d.orders ∙ ground arith in
      record {
        order_was_free = c.was_free;
        order_in_range = inside;
        entered = ap bare own;
        alone = (ap (λ y. y.next_order) own, ap (λ y. y.prev_order) own);
        orders = order;
        used = λ j n. ap (λ x. (x.cells j).is_free) d.orders ∙ ground (arith, cell_else c j n, n);
        in_use = ap (λ x. (x.cells i).is_free) d.orders ∙ ground (arith, cell_self c);
        size = ap (λ x. x.size) d.orders ∙ c.same_size;
        level_was_free = e.was_free;
        level_in_range = level_inside;
        level = d.data_of l ∙ ap bare_level level_own;
        levels = λ k n. d.data_of k ∙ ap bare_level (level_same k n);
        level_used =
            λ k n. d.used k ∙ ap (λ v. v.is_free) (ap (λ f. f k) e.cells_after) ∙ ground (arith, n);
        level_in_use = d.used l ∙ ap (λ v. v.is_free) (ap (λ f. f l) e.cells_after) ∙ ground arith;
        level_size = d.size ∙ e.same_size;
        ring = d.ring;
        best = d.best;
        other_best = d.other_best;
        forth = λ k x n. d.forth k x n ∙ ap (λ v. v.next) (level_same k n);
        back = λ k x n. d.back k x n ∙ ap (λ v. v.prev) (level_same k n);
        table =
            d.table
            ∙ ap (λ v. update b.price_to_orders_at_price (price_to_index v.price) (some l))
                level_own;
        registry =
            ap (λ f. registered_with f (order_at b1 i) i) d.registry
            ∙ ap (λ y. registered_with b.cid_oid_to_order y i) (ap bare own);
      }

  opened-as :
      allocate b.orders_at_price_pool (level_of o i) ≡ ok (l, levels)
      → open_level (record b { orders_pool = pool }) i
        ≡ add_order_at_price (prepared b pool i o levels) l
  unfolding open_level set_order
  opened-as f = rw (open_level, own_order c, f) refl

  -- The book before the new level is linked in, and the levels of the side in it.
  module _ {s : Side} {own : List Queue} (h : Ladder b s own) (side : o.side ≡ s)
      (free_price : get_order_at_price b o.price ≡ none) where
    other_cell : (k : ℕ) → k ∈ cells own → k ≢ l
    other_cell k m = free_ne b s own l h.queues e.was_free k m

    outside : l ∉ cells own
    outside = elim (Bool-cases (has l (cells own))) [
      | inl m ↦ absurd (other_cell l m refl)
      | inr m ↦ m
    ]

    other_price :
        (k : ℕ)
        → k ∈ cells own
        → price_of (prepared b pool i o levels) k ≢ price_of (prepared b pool i o levels) l
    other_price k m q =
        let there = (cells-IsHeld b s own h.queues k m).at_price in
        let same : price_of b k ≡ o.price =
          sym (ap (λ v. v.price) (level_same k (other_cell k m)))
          ∙ q
          ∙ ap (λ v. v.price) level_own in
        let clash = sym there ∙ ap (get_order_at_price b) same ∙ free_price in cc

    place :
        IsTraded s
        → Returns
            (Seated
              (tabled (prepared b pool i o levels) l)
              s
              l
              (cells own)
              (seated (prepared b pool i o levels) l (cells own)))
            (add_order_at_price (prepared b pool i o levels) l)
    unfolding set_order
    place traded =
        add_order_at_price-Seated (prepared b pool i o levels) s l (cells own) traded
          (ap (λ v. v.side) level_own ∙ side)
          (Ring-same (cells own) h.ring (λ k m. ap (λ v. v.next) (level_same k (other_cell k m)))
            (λ k m. ap (λ v. v.prev) (level_same k (other_cell k m))))
          outside h.best other_price
          (rw e.same_size (
            length_le-bound b.orders_at_price_pool.size (cells own) h.ring.distinct
              (λ k m. (cells-IsHeld b s own h.queues k m).in_range)))

    in_order :
        IsTraded s
        → AreSorted
            (tabled (prepared b pool i o levels) l)
            s
            (seated (prepared b pool i o levels) l (cells own))
    in_order traded =
        AreSorted-in (tabled (prepared b pool i o levels) l) s l
          (level_at (prepared b pool i o levels) l) traded (ap (λ v. v.side) level_own ∙ side) refl
          (cells own) other_price
          (AreSorted-on b (tabled (prepared b pool i o levels) l) s (cells own)
            (λ k m. ap (λ v. v.price) (level_same k (other_cell k m))) h.sorted)

    -- `AddOrderToPriceLevel` of a fresh order whose price has no level.
    pub add_order_to_price_level-Opened :
        IsTraded s
        → allocate b.orders_at_price_pool (level_of o i) ≡ ok (l, levels)
        → i < b.orders_pool.size
        → l < b.orders_at_price_pool.size
        → o.client_id < me_max_num_clients
        → o.client_order_id < me_max_order_ids
        → Returns
            (λ b'.
              (us : List MeMarketUpdate)
              → Opened b o i l s
                  (cells own)
                  (seated (prepared b pool i o levels) l (cells own))
                  (record b' { updates = us })
                × AreSorted
                    (record b' { updates = us })
                    s
                    (seated (prepared b pool i o levels) l (cells own)))
            (add_order_to_price_level (record b { orders_pool = pool }) i)
    unfolding add_order_to_price_level register
    add_order_to_price_level-Opened traded f inside level_inside client order =
        let nowhere : get_order_at_price b (read pool i).price ≡ none =
          ap (λ y. get_order_at_price b y.price) (own_order c) ∙ free_price in
        rw (nowhere, opened-as f)
          (Returns-bind (place traded) λ b1 d.
            let same : bare (order_at b1 i) ≡ bare o =
              (Seated-Opened s (cells own) (seated (prepared b pool i o levels) l (cells own)) [] d
                inside level_inside).entered in
            let client_in : ltb (order_at b1 i).client_id me_max_num_clients ≡ true =
              lt→ltb (order_at b1 i).client_id me_max_num_clients
                (rw (ap (λ y. y.client_id) same) client) in
            let order_in : ltb (order_at b1 i).client_order_id me_max_order_ids ≡ true =
              lt→ltb (order_at b1 i).client_order_id me_max_order_ids
                (rw (ap (λ y. y.client_order_id) same) order) in
            rw (client_in, order_in, register)
              (gives λ us. (
                Seated-Opened s (cells own) (seated (prepared b pool i o levels) l (cells own)) us d
                    inside level_inside,
                AreSorted-same (tabled (prepared b pool i o levels) l) (record b1 { updates = us })
                    s (seated (prepared b pool i o levels) l (cells own))
                    (λ k. ap (λ v. v.price) (d.data_of k)) (in_order traded),
              )))
