-- ===== src/Exchange/OrderBook/Shape/Spare.antt =====
-- Levels that a change leaves alone.
use trading_system.Prelude.{ℕ, ◌≡◌, ◌≢◌, sym, ap, ◌∙◌, List, [], ◌∷◌, inl, inr, arith, Bool-cases}
use trading_system.Links.Distinct.{has, ◌∈◌, ◌∉◌}
use trading_system.Links.Ring.{Ring-same, some-injective}
use trading_system.Types.{Side}
use trading_system.Exchange.OrderBook.State.{
  MeOrderBook, order_at, level_at, get_order_at_price, price_to_index,
}
use trading_system.Exchange.OrderBook.Shape.{
  Queue, IsOrder, IsQueue, AreQueues, price_of, cells, AreWorse, AreSorted,
}
use trading_system.Exchange.OrderBook.Shape.Relinking.{bare, bare_level}

-- Level `q` and its orders are in `b'` as in `b`, but for the links of the level.
pub record Spares (b b' : MeOrderBook) (q : Queue) : Type 0 where
  pub level : bare_level (level_at b' q.cell) ≡ bare_level (level_at b q.cell)
  pub level_used :
      (b'.orders_at_price_pool.cells q.cell).is_free ≡ (b.orders_at_price_pool.cells q.cell).is_free
  pub level_size : b'.orders_at_price_pool.size ≡ b.orders_at_price_pool.size
  pub table : get_order_at_price b' (price_of b q.cell) ≡ get_order_at_price b (price_of b q.cell)
  pub orders : (j : ℕ) → j ∈ q.orders → order_at b' j ≡ order_at b j
  pub used :
      (j : ℕ) → j ∈ q.orders → (b'.orders_pool.cells j).is_free ≡ (b.orders_pool.cells j).is_free
  pub size : b'.orders_pool.size ≡ b.orders_pool.size
  pub registry :
      (j : ℕ)
      → j ∈ q.orders
      → b'.cid_oid_to_order (order_at b j).client_id (order_at b j).client_order_id
        ≡ b.cid_oid_to_order (order_at b j).client_id (order_at b j).client_order_id

-- The same order in another book, whatever its links.
pub IsOrder-bare :
    {b b' : MeOrderBook} {s : Side} {p i : ℕ}
    → IsOrder b s p i
    → bare (order_at b' i) ≡ bare (order_at b i)
    → (b'.orders_pool.cells i).is_free ≡ (b.orders_pool.cells i).is_free
    → b'.orders_pool.size ≡ b.orders_pool.size
    → b'.cid_oid_to_order (order_at b i).client_id (order_at b i).client_order_id
      ≡ b.cid_oid_to_order (order_at b i).client_id (order_at b i).client_order_id
    → IsOrder b' s p i
IsOrder-bare {b} {b'} {s} {p} {i} w d u z g =
    let same_client = ap (λ o. o.client_id) d in
    let same_id = ap (λ o. o.client_order_id) d in
    record {
      side = ap (λ o. o.side) d ∙ w.side;
      price = ap (λ o. o.price) d ∙ w.price;
      in_range = rw z w.in_range;
      in_use = u ∙ w.in_use;
      client = rw same_client w.client;
      order = rw same_id w.order;
      registered = rw (same_client, same_id) (g ∙ w.registered);
    }

pub IsQueue-Spares :
    {b b' : MeOrderBook} {s : Side} {q : Queue} → IsQueue b s q → Spares b b' q → IsQueue b' s q
IsQueue-Spares {b} {b'} {s} {q} w x =
    let same_price : price_of b' q.cell ≡ price_of b q.cell = ap (λ v. v.price) x.level in
    record {
      side = ap (λ v. v.side) x.level ∙ w.side;
      head = ap (λ v. v.orders_head) x.level ∙ w.head;
      holds = w.holds;
      ring =
          Ring-same q.orders w.ring (λ j m. ap (λ o. o.next_order) (x.orders j m))
            (λ j m. ap (λ o. o.prev_order) (x.orders j m));
      at_price = ap (get_order_at_price b') same_price ∙ x.table ∙ w.at_price;
      in_range = rw x.level_size w.in_range;
      in_use = x.level_used ∙ w.in_use;
      each = λ j m.
          rw same_price (
            IsOrder-bare (w.each j m) (ap bare (x.orders j m)) (x.used j m) x.size
              (x.registry j m));
    }

-- All levels of the list are spared.
pub AreQueues-Spares :
    {b b' : MeOrderBook} {s : Side} (qs : List Queue)
    → AreQueues b s qs
    → ((q : Queue) → IsQueue b s q → q.cell ∈ cells qs → Spares b b' q)
    → AreQueues b' s qs
AreQueues-Spares [] w x = tt
AreQueues-Spares (q ∷ qs) (v, w) x = (
  IsQueue-Spares v (x q v (ground arith)),
  AreQueues-Spares qs w λ r u m. x r u (ground (arith, m)),
)

-- The prices decide the order of the levels.
AreWorse-same :
    (b b' : MeOrderBook) (s : Side) (p p' : ℕ) (ls : List ℕ)
    → p' ≡ p
    → ((l : ℕ) → price_of b' l ≡ price_of b l)
    → AreWorse b s p ls
    → AreWorse b' s p' ls
AreWorse-same b b' s p p' [] e f w = tt
AreWorse-same b b' s p p' (l ∷ ls) e f (v, w) = (rw (e, f l) v, AreWorse-same b b' s p p' ls e f w)

pub AreSorted-same :
    (b b' : MeOrderBook) (s : Side) (ls : List ℕ)
    → ((l : ℕ) → price_of b' l ≡ price_of b l)
    → AreSorted b s ls
    → AreSorted b' s ls
AreSorted-same b b' s [] f w = tt
AreSorted-same b b' s (l ∷ ls) f (v, w) =
    (AreWorse-same b b' s (price_of b l) (price_of b' l) ls (f l) f v, AreSorted-same b b' s ls f w)

module _ {b : MeOrderBook} {s t : Side} {q r : Queue} (w : IsQueue b s q) (v : IsQueue b t r)
    (apart : q.cell ≢ r.cell) where
  -- Two levels do not share an entry of the table, nor an order.
  pub other_index : price_to_index (price_of b r.cell) ≢ price_to_index (price_of b q.cell)
  other_index e =
      apart (some-injective (sym w.at_price ∙ ap b.price_to_orders_at_price (sym e) ∙ v.at_price))

  pub other_orders : (j : ℕ) → j ∈ r.orders → j ∉ q.orders
  other_orders j m = elim (Bool-cases (has j q.orders)) [
    | inl k ↦ absurd (other_index (ap price_to_index (sym (v.each j m).price ∙ (w.each j k).price)))
    | inr k ↦ k
  ]
