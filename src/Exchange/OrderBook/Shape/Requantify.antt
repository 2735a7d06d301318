-- ===== src/Exchange/OrderBook/Shape/Requantify.antt =====
-- Quantities and sent messages do not matter to the shape of the book.
use trading_system.Prelude.{ℕ, ◌≡◌, refl, ap, ◌∙◌, List, [], ◌∷◌, arith}
use trading_system.MemPool.{read}
use trading_system.Links.Ring.{Ring-same}
use trading_system.Types.{Side}
use trading_system.Messages.{MeClientResponse, MeMarketUpdate}
use trading_system.Exchange.OrderBook.State.{
  MeOrder, MeOrderBook, order_at, level_at, side_head, set_order, get_order_at_price,
  price_to_index,
}
use trading_system.Exchange.OrderBook.Shape.{
  Queue, cells, IsOrder, IsQueue, AreQueues, Ladder, Sides, price_of,
}
use trading_system.Exchange.OrderBook.Shape.Spare.{AreSorted-same}

abbrev pub but_qty : MeOrder → MeOrder
but_qty o = record o { qty = 0 }

pub record Requantified (b b' : MeOrderBook) : Type 0 where
  pub orders : (j : ℕ) → but_qty (order_at b' j) ≡ but_qty (order_at b j)
  pub used : (j : ℕ) → (b'.orders_pool.cells j).is_free ≡ (b.orders_pool.cells j).is_free
  pub size : b'.orders_pool.size ≡ b.orders_pool.size
  pub levels : b'.orders_at_price_pool ≡ b.orders_at_price_pool
  pub heads : (s : Side) → side_head b' s ≡ side_head b s
  pub table : b'.price_to_orders_at_price ≡ b.price_to_orders_at_price
  pub registry : b'.cid_oid_to_order ≡ b.cid_oid_to_order

-- Another quantity of order `i`, and other messages.
pub set_qty-Requantified :
    (b : MeOrderBook) (i n : ℕ) (rs : List MeClientResponse) (us : List MeMarketUpdate)
    → Requantified b (record (set_order b i (record (order_at b i) { qty = n })) {
      responses = rs;
      updates = us;
    })
unfolding set_order
set_qty-Requantified b i n rs us = record {
  orders = λ j. ground arith;
  used = λ j. ground arith;
  size = refl;
  levels = refl;
  heads = λ s. refl;
  table = refl;
  registry = refl;
}

module _ {b b' : MeOrderBook} (r : Requantified b b') where
  level_same : (l : ℕ) → level_at b' l ≡ level_at b l
  level_same l = ap (λ x. read x l) r.levels

  price_same : (l : ℕ) → price_of b' l ≡ price_of b l
  price_same l = ap (λ v. v.price) (level_same l)

  IsOrder-Requantified : {s : Side} {p i : ℕ} → IsOrder b s p i → IsOrder b' s p i
  IsOrder-Requantified {s} {p} {i} w =
      let same_client = ap (λ o. o.client_id) (r.orders i) in
      let same_id = ap (λ o. o.client_order_id) (r.orders i) in
      record {
        side = ap (λ o. o.side) (r.orders i) ∙ w.side;
        price = ap (λ o. o.price) (r.orders i) ∙ w.price;
        in_range = rw r.size w.in_range;
        in_use = r.used i ∙ w.in_use;
        client = rw same_client w.client;
        order = rw same_id w.order;
        registered =
            rw (same_client, same_id)
              (ap (λ f. f (order_at b i).client_id (order_at b i).client_order_id) r.registry
                ∙ w.registered);
      }

  IsQueue-Requantified : {s : Side} {q : Queue} → IsQueue b s q → IsQueue b' s q
  IsQueue-Requantified {s} {q} w = record {
    side = ap (λ v. v.side) (level_same q.cell) ∙ w.side;
    head = ap (λ v. v.orders_head) (level_same q.cell) ∙ w.head;
    holds = w.holds;
    ring =
        Ring-same q.orders w.ring (λ j _. ap (λ o. o.next_order) (r.orders j))
          (λ j _. ap (λ o. o.prev_order) (r.orders j));
    at_price =
        ap (get_order_at_price b') (price_same q.cell)
        ∙ ap (λ f. f (price_to_index (price_of b q.cell))) r.table
        ∙ w.at_price;
    in_range = rw (ap (λ x. x.size) r.levels) w.in_range;
    in_use = ap (λ x. (x.cells q.cell).is_free) r.levels ∙ w.in_use;
    each = λ j m. rw (price_same q.cell) (IsOrder-Requantified (w.each j m));
  }

  AreQueues-Requantified : (s : Side) (qs : List Queue) → AreQueues b s qs → AreQueues b' s qs
  AreQueues-Requantified s [] w = tt
  AreQueues-Requantified s (q ∷ qs) (v, w) = (IsQueue-Requantified v, AreQueues-Requantified s qs w)

  Ladder-Requantified : {s : Side} {qs : List Queue} → Ladder b s qs → Ladder b' s qs
  Ladder-Requantified {s} {qs} w = record {
    best = r.heads s ∙ w.best;
    ring =
        Ring-same (cells qs) w.ring (λ l _. ap (λ v. v.next) (level_same l))
          (λ l _. ap (λ v. v.prev) (level_same l));
    queues = AreQueues-Requantified s qs w.queues;
    sorted = AreSorted-same b b' s (cells qs) price_same w.sorted;
  }

  pub Sides-Requantified :
      {s t : Side} {own others : List Queue} → Sides b s t own others → Sides b' s t own others
  Sides-Requantified h = record {
    mine = Ladder-Requantified h.mine;
    theirs = Ladder-Requantified h.theirs;
  }
