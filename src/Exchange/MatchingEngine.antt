-- ===== src/Exchange/MatchingEngine.antt =====
-- src/exchange/matching_engine.cpp: requests from one queue are handed to the order book of their
-- instrument; the book's responses and market updates go to two other queues.
pub mod Sending
pub mod Rounds
mod Tests
use trading_system.Prelude.{
  ℕ, List, [], ◌∷◌, none, some, Result, ok, err, ◌>>=◌, ◌>>◌, require, out_of_range, assert_failed,
  ltb, update,
}
use trading_system.Types.{me_max_tickers}
use trading_system.Messages.{ClientRequestType, MeClientRequest, MeClientResponse, MeMarketUpdate}
use trading_system.SpscQueue.{SpscQueue, push, get_next_read, update_next_read}
use trading_system.Exchange.OrderBook.State.{MeOrderBook}
use trading_system.Exchange.OrderBook.Handlers.{add, cancel}

pub record MatchingEngine : Type 0 where
  pub ticker_order_book : ℕ → MeOrderBook
  pub incoming_request_queue : SpscQueue MeClientRequest
  pub outcoming_response_queue : SpscQueue MeClientResponse
  pub market_updates_queue : SpscQueue MeMarketUpdate

-- `getNextWrite() = m; updateNextWrite()` for each message, oldest first.
unfoldable pub push_all {ℓ} : {T : Type ℓ} → SpscQueue T → List T → SpscQueue T
push_all q [] = q
push_all q (m ∷ ms) = push_all (push q m) ms

unfoldable pub send_client_response : MatchingEngine → MeClientResponse → MatchingEngine
send_client_response e r = record e { outcoming_response_queue = push e.outcoming_response_queue r }

unfoldable pub send_market_update : MatchingEngine → MeMarketUpdate → MatchingEngine
send_market_update e u = record e { market_updates_queue = push e.market_updates_queue u }

send_client_responses : MatchingEngine → List MeClientResponse → MatchingEngine
send_client_responses e [] = e
send_client_responses e (r ∷ rs) = send_client_responses (send_client_response e r) rs

send_market_updates : MatchingEngine → List MeMarketUpdate → MatchingEngine
send_market_updates e [] = e
send_market_updates e (u ∷ us) = send_market_updates (send_market_update e u) us

-- The book sends its messages to the engine as it goes; the two queues are apart, so they are
-- passed on in order when the handler returns.
unfoldable pub store_book : MatchingEngine → ℕ → MeOrderBook → MatchingEngine
unfolding send_client_responses send_market_updates
store_book e t b =
    let e1 = send_client_responses e b.responses in
    let e2 = send_market_updates e1 b.updates in
    record e2 {
      ticker_order_book = update e2.ticker_order_book t (record b { responses = []; updates = [] });
    }

-- The book of the request's instrument runs its handler.
unfoldable pub run_book : MeOrderBook → MeClientRequest → Result MeOrderBook
run_book b r = elim r.type [
  | ClientRequestType.new ↦ add b r.client_id r.order_id r.side r.price r.qty
  | ClientRequestType.cancel ↦ cancel b r.client_id r.order_id
  | ClientRequestType.invalid ↦ err assert_failed
]

-- `ticker_order_book_[ticker_id_]` has no bounds check.
unfoldable pub process_client_request : MatchingEngine → MeClientRequest → Result MatchingEngine
process_client_request e r = do
  require (ltb r.ticker_id me_max_tickers) out_of_range
  b ← run_book (e.ticker_order_book r.ticker_id) r
  ok (store_book e r.ticker_id b)

-- One round of the loop of `run`.
unfoldable pub run_round : MatchingEngine → Result MatchingEngine
run_round e = elim (get_next_read e.incoming_request_queue) [
  | none ↦ ok e
  | some r ↦ do
    e1 ← process_client_request e r
    q ← update_next_read e1.incoming_request_queue
    ok (record e1 { incoming_request_queue = q })
]
