-- ===== src/Exchange/OrderBook/Shape/Release.antt =====
-- The end of `removeOrder`: the order is no longer registered, and its cell is free.
use trading_system.Prelude.{
  ℕ, ◌<◌, ◌≡◌, ◌≢◌, refl, sym, ap, ◌∙◌, Option, none, some, true, false, inl, inr, arith, ltb,
  lt→ltb, ◌==◌, Bool-cases, ok, ◌>>=◌, Returns, gives, update,
}
use trading_system.MemPool.{deallocate}
use trading_system.MemPool.Laws.{deallocate-Deallocated}
use trading_system.Links.Ring.{some-injective}
use trading_system.Types.{Side, me_max_num_clients, me_max_order_ids}
use trading_system.Exchange.OrderBook.State.{MeOrder, MeOrderBook, order_at, side_head}
use trading_system.Exchange.OrderBook.Levels.{register}
use trading_system.Exchange.OrderBook.Shape.{IsOrder}
use trading_system.Exchange.OrderBook.Shape.Relinking.{bare}

-- The table of identifiers without the entry of order `o`.
abbrev pub unregistered : (ℕ → ℕ → Option ℕ) → MeOrder → ℕ → ℕ → Option ℕ
unregistered f o = update f o.client_id (update (f o.client_id) o.client_order_id none)

pub record Released (b : MeOrderBook) (i : ℕ) (b' : MeOrderBook) : Type 0 where
  pub orders : (j : ℕ) → order_at b' j ≡ order_at b j
  pub used : (j : ℕ) → j ≢ i → (b'.orders_pool.cells j).is_free ≡ (b.orders_pool.cells j).is_free
  pub freed : (b'.orders_pool.cells i).is_free ≡ true
  pub size : b'.orders_pool.size ≡ b.orders_pool.size
  pub free : b'.orders_pool.next_free_index ≡ b.orders_pool.next_free_index
  pub levels : b'.orders_at_price_pool ≡ b.orders_at_price_pool
  pub heads : (s : Side) → side_head b' s ≡ side_head b s
  pub table : b'.price_to_orders_at_price ≡ b.price_to_orders_at_price
  pub registry : b'.cid_oid_to_order ≡ unregistered b.cid_oid_to_order (order_at b i)

pub release-Released :
    (b : MeOrderBook) (i : ℕ)
    → (order_at b i).client_id < me_max_num_clients
    → (order_at b i).client_order_id < me_max_order_ids
    → i < b.orders_pool.size
    → (b.orders_pool.cells i).is_free ≡ false
    → Returns (Released b i) (do
      b2 ← register b (order_at b i).client_id (order_at b i).client_order_id none
      pool ← deallocate b2.orders_pool i
      ok (record b2 { orders_pool = pool }))
unfolding register
release-Released b i c o inside used =
    let client_in : ltb (order_at b i).client_id me_max_num_clients ≡ true =
      lt→ltb (order_at b i).client_id me_max_num_clients c in
    let order_in : ltb (order_at b i).client_order_id me_max_order_ids ≡ true =
      lt→ltb (order_at b i).client_order_id me_max_order_ids o in
    let (pool, e, f) = deallocate-Deallocated b.orders_pool i inside used in
    rw (client_in, order_in, register, e)
      (gives (record {
        orders = f.same_objects;
        used = f.others;
        freed = f.freed;
        size = f.same_size;
        free = f.same_next;
        levels = refl;
        heads = λ s. refl;
        table = refl;
        registry = refl;
      }))

-- The same for an order whose owner is as it was when the book was well formed.
pub release-IsOrder :
    {b : MeOrderBook} {s : Side} {p i : ℕ} (b1 : MeOrderBook)
    → IsOrder b s p i
    → bare (order_at b1 i) ≡ bare (order_at b i)
    → (b1.orders_pool.cells i).is_free ≡ (b.orders_pool.cells i).is_free
    → b1.orders_pool.size ≡ b.orders_pool.size
    → Returns (Released b1 i) (do
      b2 ← register b1 (order_at b1 i).client_id (order_at b1 i).client_order_id none
      pool ← deallocate b2.orders_pool i
      ok (record b2 { orders_pool = pool }))
release-IsOrder {b} {i} b1 w d u z =
    release-Released b1 i (rw (ap (λ o. o.client_id) d) w.client)
      (rw (ap (λ o. o.client_order_id) d) w.order) (rw z w.in_range) (u ∙ w.in_use)

unregistered-else :
    (f : ℕ → ℕ → Option ℕ) (o : MeOrder) (c n j : ℕ)
    → f c n ≡ some j
    → f o.client_id o.client_order_id ≢ some j
    → unregistered f o c n ≡ f c n
unregistered-else f o c n j e h = elim (Bool-cases (o.client_id == c)) [
  | inl same ↦ elim (Bool-cases (o.client_order_id == n)) [
    | inl same' ↦
        let p : o.client_id ≡ c = ground arith in
        let q : o.client_order_id ≡ n = ground arith in
        absurd (h (ap (λ x. f x o.client_order_id) p ∙ ap (f c) q ∙ e))
    | inr other ↦ let p : o.client_id ≡ c = ground arith in rw (same, other) (ap (λ x. f x n) p)
  ]
  | inr other ↦ rw other refl
]

-- The entries of the other orders stay.
pub unregistered-other :
    {b : MeOrderBook} {s t : Side} {p q i j : ℕ}
    → IsOrder b s p i
    → IsOrder b t q j
    → j ≢ i
    → unregistered b.cid_oid_to_order
        (order_at b i)
        (order_at b j).client_id
        (order_at b j).client_order_id
      ≡ b.cid_oid_to_order (order_at b j).client_id (order_at b j).client_order_id
unregistered-other {b} {i} {j} w v ne =
    unregistered-else b.cid_oid_to_order (order_at b i) (order_at b j).client_id
      (order_at b j).client_order_id j v.registered
      (λ e. ne (some-injective (sym e ∙ w.registered)))
