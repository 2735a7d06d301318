-- ===== src/Exchange/OrderBook/Matching/Cancel.antt =====
-- What `cancel` does, and its refusal.
use trading_system.Prelude.{ℕ, ◌+◌, ◌≡◌, ◌≢◌, true, refl, none, [], ◌∷◌, ◌++◌, ok}
use trading_system.MemPool.Laws.{live}
use trading_system.Messages.{ClientResponseType, MarketUpdateType}
use trading_system.Types.{qty_invalid}
use trading_system.Exchange.OrderBook.State.{MeOrderBook, order_at, send_client_response}
use trading_system.Exchange.OrderBook.Handlers.{cancel, find_order, rejected_response}

-- What a successful cancel of the order in cell `i` sends, with the order's values before its removal.
pub record Cancelled (b : MeOrderBook) (client_id order_id i : ℕ) (b' : MeOrderBook) : Type 0 where
  pub responses :
      b'.responses
      ≡ b.responses
        ++ (record {
          type = ClientResponseType.cancelled;
          client_id = client_id;
          ticker_id = b.ticker;
          client_order_id = order_id;
          market_order_id = (order_at b i).market_order_id;
          side = (order_at b i).side;
          price = (order_at b i).price;
          exec_qty = qty_invalid;
          left_qty = (order_at b i).qty;
        }
            ∷ [])
  pub updates :
      b'.updates
      ≡ b.updates
        ++ (record {
          type = MarketUpdateType.cancel;
          order_id = (order_at b i).market_order_id;
          ticker_id = b.ticker;
          side = (order_at b i).side;
          price = (order_at b i).price;
          qty = (order_at b i).qty;
          priority = (order_at b i).priority;
        }
            ∷ [])
  pub freed : (b'.orders_pool.cells i).is_free ≡ true
  pub others : (j : ℕ) → j ≢ i → (b'.orders_pool.cells j).is_free ≡ (b.orders_pool.cells j).is_free
  pub one_less : live b'.orders_pool + 1 ≡ live b.orders_pool
  pub next_order_id : b'.next_order_id ≡ b.next_order_id

-- A cancel that names no order of the book is answered by a rejection to its client, and changes
-- nothing else.
pub cancel-rejected :
    (b : MeOrderBook) (client_id order_id : ℕ)
    → find_order b client_id order_id ≡ none
    → cancel b client_id order_id
      ≡ ok (send_client_response b (rejected_response b.ticker client_id order_id))
unfolding cancel
cancel-rejected b client_id order_id e = rw (e, cancel) refl
