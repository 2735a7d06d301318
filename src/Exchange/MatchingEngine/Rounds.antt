-- ===== src/Exchange/MatchingEngine/Rounds.antt =====
-- A round of the engine, from the request queue to the two queues of messages.
use trading_system.Prelude.{
  ℕ, ◌+◌, ◌≤◌, ◌<◌, ◌≡◌, refl, List, [], ◌∷◌, ◌++◌, some, ok, lt→ltb, update, length, Returns,
  gives,
}
use trading_system.Types.{me_max_tickers}
use trading_system.Messages.{MeClientRequest, MeClientResponse, MeMarketUpdate}
use trading_system.SpscQueue.{get_next_read}
use trading_system.SpscQueue.Refine.{IsValid, contents}
use trading_system.SpscQueue.Reading.{update_next_read-seen}
use trading_system.Exchange.OrderBook.State.{MeOrderBook}
use trading_system.Exchange.MatchingEngine.{
  MatchingEngine, push_all, send_client_response, send_market_update, send_client_responses,
  send_market_updates, store_book, run_book, process_client_request, run_round,
}
use trading_system.Exchange.MatchingEngine.Sending.{push_all-contents}

send_client_responses-push_all :
    (e : MatchingEngine) (rs : List MeClientResponse)
    → send_client_responses e rs
      ≡ record e { outcoming_response_queue = push_all e.outcoming_response_queue rs }
unfolding send_client_responses send_client_response push_all
send_client_responses-push_all e [] = refl
send_client_responses-push_all e (r ∷ rs) =
    send_client_responses-push_all (send_client_response e r) rs

send_market_updates-push_all :
    (e : MatchingEngine) (us : List MeMarketUpdate)
    → send_market_updates e us
      ≡ record e { market_updates_queue = push_all e.market_updates_queue us }
unfolding send_market_updates send_market_update push_all
send_market_updates-push_all e [] = refl
send_market_updates-push_all e (u ∷ us) = send_market_updates-push_all (send_market_update e u) us

-- The engine once the book `b` of instrument `t` has answered.
abbrev stored : MatchingEngine → ℕ → MeOrderBook → MatchingEngine
stored e t b = record e {
  ticker_order_book = update e.ticker_order_book t (record b { responses = []; updates = [] });
  outcoming_response_queue = push_all e.outcoming_response_queue b.responses;
  market_updates_queue = push_all e.market_updates_queue b.updates;
}

store_book-stored : (e : MatchingEngine) (t : ℕ) (b : MeOrderBook) → store_book e t b ≡ stored e t b
unfolding store_book
store_book-stored e t b =
    rw (send_client_responses-push_all e b.responses, send_market_updates-push_all _ b.updates) refl

process_client_request-stored :
    (e : MatchingEngine) (r : MeClientRequest) (b : MeOrderBook)
    → r.ticker_id < me_max_tickers
    → run_book (e.ticker_order_book r.ticker_id) r ≡ ok b
    → process_client_request e r ≡ ok (stored e r.ticker_id b)
unfolding process_client_request
process_client_request-stored e r b known handled =
    rw (lt→ltb r.ticker_id me_max_tickers known, handled, store_book-stored e r.ticker_id b) refl

-- The book `b` that answered request `r` is stored, and what it had to say is sent.
pub record Served (e : MatchingEngine) (r : MeClientRequest) (b : MeOrderBook) (f : MatchingEngine)
    : Type 0 where
  pub answered :
      contents f.outcoming_response_queue ≡ contents e.outcoming_response_queue ++ b.responses
  pub told : contents f.market_updates_queue ≡ contents e.market_updates_queue ++ b.updates
  pub taken : contents e.incoming_request_queue ≡ r ∷ contents f.incoming_request_queue
  pub books :
      f.ticker_order_book
      ≡ update e.ticker_order_book r.ticker_id (record b { responses = []; updates = [] })
  pub valid :
      IsValid f.outcoming_response_queue
      × IsValid f.market_updates_queue
      × IsValid f.incoming_request_queue

-- All three queues are valid.
pub record Queues (e : MatchingEngine) : Type 0 where
  pub requests : IsValid e.incoming_request_queue
  pub responses : IsValid e.outcoming_response_queue
  pub updates : IsValid e.market_updates_queue

-- There is room for what book `b` has to say.
pub record Room (e : MatchingEngine) (b : MeOrderBook) : Type 0 where
  pub for_responses :
      e.outcoming_response_queue.num_elements + length b.responses
      ≤ e.outcoming_response_queue.capacity
  pub for_updates :
      e.market_updates_queue.num_elements + length b.updates ≤ e.market_updates_queue.capacity

-- With valid queues, a request for a known instrument that its book handles without a failure, and
-- room for what the book has to say, a round returns: the oldest request is released, the book's
-- responses and updates stand behind those already waiting, in the order in which it made them, and
-- the books of the other instruments are as they were.
pub run_round-Served :
    (e : MatchingEngine) (r : MeClientRequest) (b : MeOrderBook)
    → Queues e
    → get_next_read e.incoming_request_queue ≡ some r
    → r.ticker_id < me_max_tickers
    → run_book (e.ticker_order_book r.ticker_id) r ≡ ok b
    → Room e b
    → Returns (Served e r b) (run_round e)
unfolding run_round
run_round-Served e r b qs seen known handled room =
    let (q, released, wq, split) =
      update_next_read-seen e.incoming_request_queue r qs.requests seen in
    let (wr, rs) =
      push_all-contents e.outcoming_response_queue b.responses qs.responses room.for_responses in
    let (wu, us) = push_all-contents e.market_updates_queue b.updates qs.updates room.for_updates in
    let done : run_round e ≡ ok (record (stored e r.ticker_id b) { incoming_request_queue = q }) =
      rw (run_round, seen, process_client_request-stored e r b known handled, released) refl in
    rw done (
      gives
        (record { answered = rs; told = us; taken = split; books = refl; valid = (wr, wu, wq) }))
