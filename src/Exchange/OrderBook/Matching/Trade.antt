-- ===== src/Exchange/OrderBook/Matching/Trade.antt =====
-- One call of `match`: what is sent, and what it leaves.
use mathlib.Core.List.{append_assoc}
use trading_system.Prelude.{
  ℕ, ◌+◌, ◌-◌, ◌≡◌, ◌≢◌, ◌≤◌, ◌<◌, true, refl, ap, ◌∙◌, ◌⊎◌, inl, inr, false, List, [], ◌∷◌, ◌++◌,
  arith, Ensures, returns, Ensures-bind, Bool-cases, if◌then◌else◌, ◌==◌, min,
}
use trading_system.MemPool.Laws.{live, live-eq}
use trading_system.Types.{order_id_invalid, priority_invalid}
use trading_system.Messages.{ClientResponseType, MarketUpdateType}
use trading_system.Exchange.OrderBook.State.{
  MeOrder, MeOrderBook, order_at, set_order, send_client_response, send_market_update,
}
use trading_system.Exchange.OrderBook.Handlers.{Incoming, match}
use trading_system.Exchange.OrderBook.Matching.Quiet.{
  remove_order-Removed, Quiet, Quiet-refl, set_order-Quiet,
}

-- The quantity that trades, and the resting order after the trade.
abbrev pub filled_qty : MeOrderBook → ℕ → ℕ → ℕ
filled_qty b i left = min (order_at b i).qty left

abbrev pub traded : MeOrderBook → ℕ → ℕ → MeOrder
traded b i left = record (order_at b i) { qty = (order_at b i).qty - filled_qty b i left }

-- The resting order is larger: it stays in its cell with the rest of its quantity, and every cell is in
-- use as before.
pub record Remains (b : MeOrderBook) (i left : ℕ) (b' : MeOrderBook) : Type 0 where
  pub larger : left < (order_at b i).qty
  pub rest : order_at b' i ≡ record (order_at b i) { qty = (order_at b i).qty - left }
  pub cells : (j : ℕ) → (b'.orders_pool.cells j).is_free ≡ (b.orders_pool.cells j).is_free

-- The resting order is used up: its cell is freed, and no other one.
pub record Gone (b : MeOrderBook) (i left : ℕ) (b' : MeOrderBook) : Type 0 where
  pub within : (order_at b i).qty ≤ left
  pub freed : (b'.orders_pool.cells i).is_free ≡ true
  pub others : (j : ℕ) → j ≢ i → (b'.orders_pool.cells j).is_free ≡ (b.orders_pool.cells j).is_free

pub record Traded (b : MeOrderBook) (a : Incoming) (i left : ℕ) (r : ℕ × MeOrderBook) : Type 0 where
  pub left_over : r.0 ≡ left - filled_qty b i left
  pub responses :
      r.1.responses
      ≡ b.responses
        ++ (record {
          type = ClientResponseType.filled;
          client_id = a.client_id;
          ticker_id = b.ticker;
          client_order_id = a.client_order_id;
          market_order_id = a.market_order_id;
          side = a.side;
          price = (order_at b i).price;
          exec_qty = filled_qty b i left;
          left_qty = left - filled_qty b i left;
        }
            ∷ record {
              type = ClientResponseType.filled;
              client_id = (order_at b i).client_id;
              ticker_id = b.ticker;
              client_order_id = (order_at b i).client_order_id;
              market_order_id = (order_at b i).market_order_id;
              side = (order_at b i).side;
              price = (order_at b i).price;
              exec_qty = filled_qty b i left;
              left_qty = (order_at b i).qty - filled_qty b i left;
            }
            ∷ [])
  pub updates :
      r.1.updates
      ≡ b.updates
        ++ (record {
          type = MarketUpdateType.trade;
          order_id = order_id_invalid;
          ticker_id = b.ticker;
          side = a.side;
          price = (order_at b i).price;
          qty = filled_qty b i left;
          priority = priority_invalid;
        }
            ∷ record {
              type =
                  (if (order_at b i).qty - filled_qty b i left == 0
                    then MarketUpdateType.cancel
                    else MarketUpdateType.modify);
              order_id = (order_at b i).market_order_id;
              ticker_id = b.ticker;
              side = (order_at b i).side;
              price = (order_at b i).price;
              qty = (order_at b i).qty - filled_qty b i left;
              priority = (order_at b i).priority;
            }
            ∷ [])
  pub outcome : Remains b i left r.1 ⊎ Gone b i left r.1
  pub progress : (r.0 ≡ 0) ⊎ (live r.1.orders_pool + 1 ≡ live b.orders_pool)
  pub ticker : r.1.ticker ≡ b.ticker
  pub next_order_id : r.1.next_order_id ≡ b.next_order_id
  pub size : r.1.orders_pool.size ≡ b.orders_pool.size

pub order_at-set_order_self :
    (b : MeOrderBook) (i : ℕ) (o : MeOrder) → order_at (set_order b i o) i ≡ o
unfolding set_order
order_at-set_order_self b i o = ground arith

live-set_order :
    (b : MeOrderBook) (i : ℕ) (o : MeOrder)
    → live (set_order b i o).orders_pool ≡ live b.orders_pool
live-set_order b i o =
    let q = set_order-Quiet (Quiet-refl b) i o in
    live-eq (set_order b i o).orders_pool b.orders_pool q.size q.in_use

snoc_twice {ℓ} :
    {A : Type ℓ} (xs ys : List A) (x y : A)
    → xs ≡ ys
    → (xs ++ (x ∷ [])) ++ (y ∷ []) ≡ ys ++ (x ∷ y ∷ [])
snoc_twice xs ys x y e = append_assoc xs (x ∷ []) (y ∷ []) ∙ ap (λ l. l ++ (x ∷ y ∷ [])) e

used_up : (q left : ℕ) → (q - min q left == 0) ≡ false → left - min q left ≡ 0
used_up q left h = ground arith

left_of : (q left : ℕ) → (q - min q left == 0) ≡ false → q - min q left ≡ q - left
left_of q left h = ground arith

-- Whatever the book, `match` trades the smaller of the two quantities, tells both clients of the same
-- fill and the market of the trade and of what becomes of the resting order; and either the incoming
-- order is used up or the resting one leaves the book.
pub match-Traded :
    (b : MeOrderBook) (a : Incoming) (i left : ℕ) → Ensures (Traded b a i left) (match b a i left)
unfolding match send_client_response send_market_update set_order
match-Traded b a i left = elim (Bool-cases ((traded b i left).qty == 0)) [
  | inl e ↦
      rw (order_at-set_order_self b i (traded b i left), e)
        (Ensures-bind (remove_order-Removed _ i) λ b5 r. returns (record {
          left_over = refl;
          responses = r.responses ∙ snoc_twice _ _ _ _ q.responses;
          updates = rw e (r.updates ∙ snoc_twice _ _ _ _ q.updates);
          outcome = inr (record {
            within = ground (arith, e);
            freed = r.freed;
            others = λ j n. r.others j n ∙ q.in_use j;
          });
          progress = inr (r.one_less ∙ live-set_order b i (traded b i left));
          ticker = r.ticker ∙ q.ticker;
          next_order_id = r.next_order_id ∙ q.next_order_id;
          size = r.size ∙ q.size;
        }))
  | inr e ↦
      rw (order_at-set_order_self b i (traded b i left), e)
        (returns (record {
          left_over = refl;
          responses = snoc_twice _ _ _ _ q.responses;
          updates = rw e (snoc_twice _ _ _ _ q.updates);
          outcome = inl (record {
            larger = ground (arith, e);
            rest =
                order_at-set_order_self b i (traded b i left)
                ∙ ap (λ n. record (order_at b i) { qty = n }) (left_of (order_at b i).qty left e);
            cells = q.in_use;
          });
          progress = inl (used_up (order_at b i).qty left e);
          ticker = q.ticker;
          next_order_id = q.next_order_id;
          size = q.size;
        }))
]
  where
    q : Quiet b (set_order b i (traded b i left))
    q = set_order-Quiet (Quiet-refl b) i (traded b i left)
