-- ===== src/Exchange/OrderBook/Shape/Company.antt =====
-- `removeOrder` of an order that is not the only one of its level.
use trading_system.Prelude.{
  ℕ, ◌≡◌, ◌≢◌, refl, sym, ap, ◌∙◌, Option, none, some, List, [], ◌∷◌, ◌++◌, arith, ◌==◌, update,
  update_ne, Bool-cases, inl, inr,
}
use trading_system.MemPool.{read}
use trading_system.Links.Distinct.{◌∈◌, ◌∉◌, has-append, ne_of_in}
use trading_system.Links.Ring.{Ring-out}
use trading_system.Links.Neighbours.{first, Neighbours}
use trading_system.Types.{Side}
use trading_system.Exchange.OrderBook.State.{
  MeOrder, MeOrdersAtPrice, MeOrderBook, order_at, level_at, get_order_at_price, price_to_index,
}
use trading_system.Exchange.OrderBook.Shape.{Queue, IsQueue, next_order, prev_order, price_of}
use trading_system.Exchange.OrderBook.Shape.Relinking.{bare, bare_level}
use trading_system.Exchange.OrderBook.Shape.Unlink.{Detached, without}
use trading_system.Exchange.OrderBook.Shape.Release.{Released, unregistered, unregistered-other}
use trading_system.Exchange.OrderBook.Shape.Spare.{Spares, IsOrder-bare, other_orders}

abbrev relinked : MeOrder → Option ℕ → Option ℕ → MeOrder
relinked o n p = record o { next_order = n; prev_order = p }

pub order_ext :
    (o o' : MeOrder)
    → bare o ≡ bare o'
    → o.next_order ≡ o'.next_order
    → o.prev_order ≡ o'.prev_order
    → o ≡ o'
order_ext o o' e f g =
    ap (λ x. relinked x o.next_order o.prev_order) e
    ∙ ap (λ x. relinked o' x o.prev_order) f
    ∙ ap (λ x. relinked o' o'.next_order x) g

without-same : (v : MeOrdersAtPrice) (i : ℕ) (a : Option ℕ) → (without v i a).price ≡ v.price
without-same v i a = ground arith

without-side : (v : MeOrdersAtPrice) (i : ℕ) (a : Option ℕ) → (without v i a).side ≡ v.side
without-side v i a = ground arith

without-next : (v : MeOrdersAtPrice) (i : ℕ) (a : Option ℕ) → (without v i a).next ≡ v.next
without-next v i a = ground arith

without-prev : (v : MeOrdersAtPrice) (i : ℕ) (a : Option ℕ) → (without v i a).prev ≡ v.prev
without-prev v i a = ground arith

without-head :
    (v : MeOrdersAtPrice) (i after : ℕ) (xs ys : List ℕ)
    → v.orders_head ≡ first (xs ++ (i ∷ ys))
    → i ∉ (xs ++ ys)
    → (xs ≡ [] → first ys ≡ some after)
    → (without v i (some after)).orders_head ≡ first (xs ++ ys)
without-head v i after [] ys e o f = ground (arith, e, f refl)
without-head v i after (x ∷ xs) ys e o f = ground (arith, e, o)

-- Order `i` of level `l`, between `before` and `after`, goes.
module _ {b b1 b' : MeOrderBook} {s : Side} {l i : ℕ} {xs ys : List ℕ}
    (w : IsQueue b s (record { cell = l; orders = xs ++ (i ∷ ys) }))
    (m : Neighbours (next_order b) (prev_order b) xs i ys)
    (d : Detached b l i
      (update (next_order b) m.before (some m.after))
      (update (prev_order b) m.after (some m.before))
      b1)
    (r : Released b1 i b') where
  in_queue : i ∈ (xs ++ (i ∷ ys))
  in_queue = ground (arith, has-append i xs (i ∷ ys))

  grown : (j : ℕ) → j ∈ (xs ++ ys) → j ∈ (xs ++ (i ∷ ys))
  grown j k = ground (arith, has-append j xs (i ∷ ys), has-append j xs ys, k)

  registry_after : b'.cid_oid_to_order ≡ unregistered b.cid_oid_to_order (order_at b i)
  registry_after =
      r.registry
      ∙ ap (λ f. unregistered f (order_at b1 i)) (ap (λ x. x.cid_oid_to_order) d.rest)
      ∙ ap (unregistered b.cid_oid_to_order) (d.data_of i)

  before_ne : m.before ≢ i
  before_ne = ne_of_in m.before i (xs ++ ys) m.before_in m.out

  level_after : level_at b' l ≡ without (level_at b l) i (some m.after)
  level_after =
      ap (λ x. read x l) r.levels
      ∙ d.level
      ∙ ap (λ a. without (level_at b l) i a)
          (update_ne (next_order b) m.before i (some m.after) (λ e. before_ne (sym e)) ∙ m.forth)

  pub Company-Spares : {t : Side} (q : Queue) → IsQueue b t q → l ≢ q.cell → Spares b b' q
  Company-Spares q v apart_cell =
      let apart : (j : ℕ) → j ∈ q.orders → j ∉ (xs ++ (i ∷ ys)) = other_orders w v apart_cell in
      let ne : (j : ℕ) → j ∈ q.orders → (k : ℕ) → k ∈ (xs ++ ys) → j ≢ k =
        λ j n k o e. ne_of_in k j (xs ++ (i ∷ ys)) (grown k o) (apart j n) (sym e) in
      let ne_i : (j : ℕ) → j ∈ q.orders → j ≢ i =
        λ j k e. ne_of_in i j (xs ++ (i ∷ ys)) in_queue (apart j k) (sym e) in
      record {
        level =
            ap (λ x. bare_level (read x q.cell)) r.levels
            ∙ ap bare_level (d.levels q.cell (λ e. apart_cell (sym e)));
        level_used = ap (λ x. (x.cells q.cell).is_free) r.levels ∙ d.level_used q.cell;
        level_size = ap (λ x. x.size) r.levels ∙ d.level_size;
        table =
            ap (λ f. f (price_to_index (price_of b q.cell)))
              (r.table ∙ ap (λ x. x.price_to_orders_at_price) d.rest);
        orders = λ j k.
            r.orders j
            ∙ order_ext (order_at b1 j) (order_at b j) (d.data_of j)
                (d.forth j (ne_i j k)
                  ∙ update_ne (next_order b) m.before j (some m.after)
                      (ne j k m.before m.before_in))
                (d.back j (ne_i j k)
                  ∙ update_ne (prev_order b) m.after j (some m.before) (ne j k m.after m.after_in));
        used = λ j k. r.used j (ne_i j k) ∙ d.used j;
        size = r.size ∙ d.size;
        registry = λ j k.
            ap (λ f. f (order_at b j).client_id (order_at b j).client_order_id) registry_after
            ∙ unregistered-other (w.each i in_queue) (v.each j k) (ne_i j k);
      }

  pub Company-IsQueue :
      first (xs ++ ys) ≢ none → IsQueue b' s (record { cell = l; orders = xs ++ ys })
  Company-IsQueue some_left =
      let same_price : price_of b' l ≡ price_of b l =
        ap (λ v. v.price) level_after ∙ without-same (level_at b l) i (some m.after) in
      let ne_i : (j : ℕ) → j ∈ (xs ++ ys) → j ≢ i = λ j k. ne_of_in j i (xs ++ ys) k m.out in
      record {
        side = ap (λ v. v.side) level_after ∙ without-side (level_at b l) i (some m.after) ∙ w.side;
        head =
            ap (λ v. v.orders_head) level_after
            ∙ without-head (level_at b l) i m.after xs ys w.head m.out m.follows;
        holds = some_left;
        ring = Ring-out xs i ys m.before m.after w.ring m.back m.forth (record {
          forth = λ j o. ap (λ v. v.next_order) (r.orders j) ∙ d.forth j o;
          back = λ j o. ap (λ v. v.prev_order) (r.orders j) ∙ d.back j o;
        });
        at_price =
            ap (get_order_at_price b') same_price
            ∙ ap (λ f. f (price_to_index (price_of b l)))
                (r.table ∙ ap (λ x. x.price_to_orders_at_price) d.rest)
            ∙ w.at_price;
        in_range = rw (ap (λ x. x.size) r.levels ∙ d.level_size) w.in_range;
        in_use = ap (λ x. (x.cells l).is_free) r.levels ∙ d.level_used l ∙ w.in_use;
        each = λ j k. rw same_price (
            IsOrder-bare (w.each j (grown j k)) (ap bare (r.orders j) ∙ d.data_of j)
              (r.used j (ne_i j k) ∙ d.used j) (r.size ∙ d.size)
              (ap (λ f. f (order_at b j).client_id (order_at b j).client_order_id) registry_after
                ∙ unregistered-other (w.each i in_queue) (w.each j (grown j k)) (ne_i j k)));
      }

  -- The links and the prices of the levels stay.
  pub Company-level :
      (k : ℕ)
      → ((level_at b' k).next ≡ (level_at b k).next)
        × ((level_at b' k).prev ≡ (level_at b k).prev)
        × ((level_at b' k).price ≡ (level_at b k).price)
  Company-level k = elim (Bool-cases (k == l)) [
    | inl same ↦
        let e : k ≡ l = ground arith in
        rw e (
          ap (λ v. v.next) level_after ∙ without-next (level_at b l) i (some m.after),
          ap (λ v. v.prev) level_after ∙ without-prev (level_at b l) i (some m.after),
          ap (λ v. v.price) level_after ∙ without-same (level_at b l) i (some m.after),
        )
    | inr other ↦
        let e : k ≢ l = ground arith in
        let same = ap (λ x. read x k) r.levels ∙ d.levels k e in
        (ap (λ v. v.next) same, ap (λ v. v.prev) same, ap (λ v. v.price) same)
  ]
