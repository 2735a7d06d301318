-- ===== src/Exchange/OrderBook/Shape/Alone.antt =====
-- `removeOrder` of an order that is the only one of its level.
use trading_system.Prelude.{ℕ, ◌≡◌, ◌≢◌, sym, ap, ◌∙◌, Option, none, [], ◌∷◌, arith, update_ne}
use trading_system.MemPool.{read}
use trading_system.Links.Distinct.{◌∈◌, ne_of_in}
use trading_system.Links.Ring.{Link}
use trading_system.Types.{Side}
use trading_system.Exchange.OrderBook.State.{MeOrderBook, order_at, level_at, price_to_index}
use trading_system.Exchange.OrderBook.Shape.{Queue, IsQueue, price_of}
use trading_system.Exchange.OrderBook.Shape.Relinking.{bare_level}
use trading_system.Exchange.OrderBook.Shape.RemoveLevel.{LevelGone}
use trading_system.Exchange.OrderBook.Shape.Release.{Released, unregistered, unregistered-other}
use trading_system.Exchange.OrderBook.Shape.Spare.{Spares, other_index, other_orders}

module _ {b b1 b' : MeOrderBook} {s : Side} {l i : ℕ} {n p : Link} {best : Option ℕ}
    (w : IsQueue b s (record { cell = l; orders = i ∷ [] })) (d : LevelGone b l n p best b1)
    (r : Released b1 i b') where
  alone_in : i ∈ (i ∷ [])
  alone_in = ground arith

  registry_after : b'.cid_oid_to_order ≡ unregistered b.cid_oid_to_order (order_at b i)
  registry_after =
      r.registry
      ∙ ap (λ f. unregistered f (order_at b1 i)) d.registry
      ∙ ap (λ x. unregistered b.cid_oid_to_order (read x i)) d.orders

  -- The prices of the levels stay.
  pub Alone-price : (k : ℕ) → (level_at b' k).price ≡ (level_at b k).price
  Alone-price k = ap (λ v. v.price) (ap (λ x. bare_level (read x k)) r.levels ∙ d.data_of k)

  pub Alone-Spares : {t : Side} (q : Queue) → IsQueue b t q → l ≢ q.cell → Spares b b' q
  Alone-Spares q v apart_cell =
      let ne_i : (j : ℕ) → j ∈ q.orders → j ≢ i =
        λ j k e. ne_of_in i j (i ∷ []) alone_in (other_orders w v apart_cell j k) (sym e) in
      record {
        level = ap (λ x. bare_level (read x q.cell)) r.levels ∙ d.data_of q.cell;
        level_used =
            ap (λ x. (x.cells q.cell).is_free) r.levels ∙ d.used q.cell (λ e. apart_cell (sym e));
        level_size = ap (λ x. x.size) r.levels ∙ d.size;
        table =
            ap (λ f. f (price_to_index (price_of b q.cell))) (r.table ∙ d.table)
            ∙ update_ne b.price_to_orders_at_price (price_to_index (price_of b l))
                (price_to_index (price_of b q.cell)) none (other_index w v apart_cell);
        orders = λ j k. r.orders j ∙ ap (λ x. read x j) d.orders;
        used = λ j k. r.used j (ne_i j k) ∙ ap (λ x. (x.cells j).is_free) d.orders;
        size = r.size ∙ ap (λ x. x.size) d.orders;
        registry = λ j k.
            ap (λ f. f (order_at b j).client_id (order_at b j).client_order_id) registry_after
            ∙ unregistered-other (w.each i alone_in) (v.each j k) (ne_i j k);
      }
