-- ===== src/Exchange/OrderBook/Shape/Entered.antt =====
-- An order that has joined the others of its price.
use trading_system.Prelude.{
  ℕ, ◌<◌, ◌≡◌, ◌≢◌, refl, sym, ap, ◌∙◌, Option, none, some, List, [], ◌∷◌, ◌++◌, arith, ◌==◌, true,
  false, update, Bool-cases, inl, inr,
}
use trading_system.MemPool.{read}
use trading_system.Links.Distinct.{has, ◌∈◌, ◌∉◌, has-append, ne_of_in}
use trading_system.Links.Ring.{PutsIn, last, last-in, last_in, Chain-last, some-injective}
use trading_system.Types.{Side, me_max_num_clients, me_max_order_ids}
use trading_system.Exchange.OrderBook.State.{
  MeOrder, MeOrderBook, order_at, level_at, side_head, get_order_at_price, price_to_index,
}
use trading_system.Exchange.OrderBook.Shape.{
  Queue, IsOrder, IsQueue, next_order, prev_order, price_of,
}
use trading_system.Exchange.OrderBook.Shape.Relinking.{bare, bare_level}
use trading_system.Exchange.OrderBook.Shape.Company.{order_ext}
use trading_system.Exchange.OrderBook.Shape.Spare.{Spares, IsOrder-bare, other_orders}
use trading_system.Exchange.OrderBook.Shape.Around.{queue_of}

-- The table of identifiers with order `o` in cell `i`.
abbrev pub registered_with : (ℕ → ℕ → Option ℕ) → MeOrder → ℕ → ℕ → ℕ → Option ℕ
registered_with f o i = update f o.client_id (update (f o.client_id) o.client_order_id (some i))

-- Order `o` is in the free cell `i`, registered, and linked in between `before` and `after`; the rest
-- is as in `b`.
pub record Entered (b : MeOrderBook) (o : MeOrder) (i before after : ℕ) (b' : MeOrderBook)
    : Type 0 where
  pub was_free : (b.orders_pool.cells i).is_free ≡ true
  pub links : PutsIn (next_order b) (prev_order b) (next_order b') (prev_order b') i before after
  pub entered : bare (order_at b' i) ≡ bare o
  pub data_of : (j : ℕ) → j ≢ i → bare (order_at b' j) ≡ bare (order_at b j)
  pub used : (j : ℕ) → j ≢ i → (b'.orders_pool.cells j).is_free ≡ (b.orders_pool.cells j).is_free
  pub in_use : (b'.orders_pool.cells i).is_free ≡ false
  pub in_range : i < b.orders_pool.size
  pub size : b'.orders_pool.size ≡ b.orders_pool.size
  pub levels : b'.orders_at_price_pool ≡ b.orders_at_price_pool
  pub heads : (s : Side) → side_head b' s ≡ side_head b s
  pub table : b'.price_to_orders_at_price ≡ b.price_to_orders_at_price
  pub registry : b'.cid_oid_to_order ≡ registered_with b.cid_oid_to_order o i

pub registered_with-else :
    (f : ℕ → ℕ → Option ℕ) (o : MeOrder) (i c n j : ℕ)
    → f o.client_id o.client_order_id ≡ none
    → f c n ≡ some j
    → registered_with f o i c n ≡ f c n
registered_with-else f o i c n j h e = elim (Bool-cases (o.client_id == c)) [
  | inl same ↦ elim (Bool-cases (o.client_order_id == n)) [
    | inl same' ↦
        let p : o.client_id ≡ c = ground arith in
        let q : o.client_order_id ≡ n = ground arith in
        let clash : f c n ≡ none = sym (ap (λ x. f x o.client_order_id) p ∙ ap (f c) q) ∙ h in cc
    | inr other ↦ let p : o.client_id ≡ c = ground arith in rw (same, other) (ap (λ x. f x n) p)
  ]
  | inr other ↦ rw other refl
]

pub registered_with_self :
    (f : ℕ → ℕ → Option ℕ) (o : MeOrder) (i : ℕ)
    → registered_with f o i o.client_id o.client_order_id ≡ some i
registered_with_self f o i = ground arith

module _ {b b' : MeOrderBook} {s : Side} {o : MeOrder} {l x i before : ℕ} {xs : List ℕ}
    (w : IsQueue b s (queue_of l (x ∷ xs)))
    (free_id : b.cid_oid_to_order o.client_id o.client_order_id ≡ none)
    (p : prev_order b x ≡ some before) (d : Entered b o i before x b') where
  unused : {t : Side} {q : Queue} → IsQueue b t q → (j : ℕ) → j ∈ q.orders → j ≢ i
  unused v j m e =
      let taken = (v.each j m).in_use in
      let free = ap (λ k. (b.orders_pool.cells k).is_free) e ∙ d.was_free in cc

  before_in : before ∈ (x ∷ xs)
  before_in =
      let (_, back) = Chain-last (next_order b) (prev_order b) x xs x w.ring.linked in
      let same : last x xs ≡ before = some-injective (sym back ∙ p) in
      ap (λ k. has k (x ∷ xs)) (sym same) ∙ last-in x xs

  level_same : (k : ℕ) → level_at b' k ≡ level_at b k
  level_same k = ap (λ y. read y k) d.levels

  pub price_same : (k : ℕ) → price_of b' k ≡ price_of b k
  price_same k = ap (λ v. v.price) (level_same k)

  entry_same :
      {t : Side} {q : Queue}
      → IsQueue b t q
      → (j : ℕ) → j ∈ q.orders
      → b'.cid_oid_to_order (order_at b j).client_id (order_at b j).client_order_id
        ≡ b.cid_oid_to_order (order_at b j).client_id (order_at b j).client_order_id
  entry_same v j m =
      ap (λ f. f (order_at b j).client_id (order_at b j).client_order_id) d.registry
      ∙ registered_with-else b.cid_oid_to_order o i (order_at b j).client_id
          (order_at b j).client_order_id j free_id (v.each j m).registered

  pub Entered-Spares : {t : Side} (q : Queue) → IsQueue b t q → l ≢ q.cell → Spares b b' q
  Entered-Spares q v apart =
      let out : (j : ℕ) → j ∈ q.orders → j ∉ (x ∷ xs) = other_orders w v apart in
      let ne : (j : ℕ) → j ∈ q.orders → (k : ℕ) → k ∈ (x ∷ xs) → j ≢ k =
        λ j m k n e. ne_of_in k j (x ∷ xs) n (out j m) (sym e) in
      record {
        level = ap bare_level (level_same q.cell);
        level_used = ap (λ y. (y.cells q.cell).is_free) d.levels;
        level_size = ap (λ y. y.size) d.levels;
        table = ap (λ f. f (price_to_index (price_of b q.cell))) d.table;
        orders = λ j m.
            order_ext (order_at b' j) (order_at b j) (d.data_of j (unused v j m))
              (d.links.forth j (ne j m before before_in) (unused v j m))
              (d.links.back j (ne j m x (ground arith)) (unused v j m));
        used = λ j m. d.used j (unused v j m);
        size = d.size;
        registry = entry_same v;
      }

  new_order :
      o.side ≡ s
      → o.price ≡ price_of b l
      → o.client_id < me_max_num_clients
      → o.client_order_id < me_max_order_ids
      → IsOrder b' s (price_of b l) i
  new_order side price client order =
      let same_client = ap (λ y. y.client_id) d.entered in
      let same_id = ap (λ y. y.client_order_id) d.entered in
      record {
        side = ap (λ y. y.side) d.entered ∙ side;
        price = ap (λ y. y.price) d.entered ∙ price;
        in_range = rw d.size d.in_range;
        in_use = d.in_use;
        client = rw same_client client;
        order = rw same_id order;
        registered =
            rw (same_client, same_id)
              (ap (λ f. f o.client_id o.client_order_id) d.registry
                ∙ registered_with_self b.cid_oid_to_order o i);
      }

  pub Entered-IsQueue :
      o.side ≡ s
      → o.price ≡ price_of b l
      → o.client_id < me_max_num_clients
      → o.client_order_id < me_max_order_ids
      → IsQueue b' s (queue_of l (x ∷ xs ++ (i ∷ [])))
  Entered-IsQueue side price client order = record {
    side = ap (λ v. v.side) (level_same l) ∙ w.side;
    head = ap (λ v. v.orders_head) (level_same l) ∙ w.head;
    holds = λ e. cc;
    ring = last_in i x xs before w.ring outside p d.links;
    at_price =
        ap (get_order_at_price b') (price_same l)
        ∙ ap (λ f. f (price_to_index (price_of b l))) d.table
        ∙ w.at_price;
    in_range = rw (ap (λ y. y.size) d.levels) w.in_range;
    in_use = ap (λ y. (y.cells l).is_free) d.levels ∙ w.in_use;
    each = λ j m. rw (price_same l) (one_of j (x ∷ xs) m (λ k n. old k n));
  }
    where
      outside : i ∉ (x ∷ xs)
      outside = elim (Bool-cases (has i (x ∷ xs))) [
        | inl e ↦ absurd (unused w i e refl)
        | inr e ↦ e
      ]

      old : (k : ℕ) → k ∈ (x ∷ xs) → IsOrder b' s (price_of b l) k
      old k n =
          IsOrder-bare (w.each k n) (d.data_of k (unused w k n)) (d.used k (unused w k n)) d.size
            (entry_same w k n)

      one_of :
          (j : ℕ) (ys : List ℕ)
          → j ∈ (ys ++ (i ∷ []))
          → ((k : ℕ) → k ∈ ys → IsOrder b' s (price_of b l) k)
          → IsOrder b' s (price_of b l) j
      one_of j ys m f = elim (Bool-cases (has j ys)) [
        | inl e ↦ f j e
        | inr e ↦
            let same : j ≡ i = ground (arith, has-append j ys (i ∷ []), m, e) in
            rw same (new_order side price client order)
      ]
