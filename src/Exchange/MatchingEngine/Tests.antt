-- ===== src/Exchange/MatchingEngine/Tests.antt =====
-- An engine that takes a new order.
use trading_system.Prelude.{refl, none, [], Result, ok, err, true, arith, Returns}
use trading_system.Types.{buy}
use trading_system.Messages.{
  ClientRequestType, MeClientRequest, blank_request, blank_response, blank_update,
}
use trading_system.SpscQueue.{new_queue, push, get_next_read}
use trading_system.SpscQueue.Refine.{new_queue-IsValid, contents-push}
use trading_system.MemPool.{allocate}
use trading_system.Exchange.OrderBook.State.{
  MeOrderBook, blank_order, blank_level, send_client_response, generate_next_order_id, get_priority,
  set_order, set_order_at_price, set_level, set_side_head, send_market_update,
}
use trading_system.Exchange.OrderBook.Levels.{add_order_to_price_level}
use trading_system.Exchange.OrderBook.Handlers.{add, match_loop}
use trading_system.Exchange.MatchingEngine.{MatchingEngine, run_book, run_round}
use trading_system.Exchange.MatchingEngine.Rounds.{Served, run_round-Served}

abbrev first_order : MeClientRequest
first_order = record blank_request {
  type = ClientRequestType.new;
  client_id = 1;
  ticker_id = 3;
  order_id = 10;
  side = buy;
  price = 101;
  qty = 5;
}

abbrev no_orders : MeOrderBook
no_orders = record {
  ticker = 3;
  cid_oid_to_order = λ _ _. none;
  orders_at_price_pool = record {
    cells = λ _. record { object = blank_level; is_free = true };
    size = 2;
    next_free_index = 0;
  };
  bids_by_price = none;
  asks_by_price = none;
  price_to_orders_at_price = λ _. none;
  orders_pool = record {
    cells = λ _. record { object = blank_order; is_free = true };
    size = 2;
    next_free_index = 0;
  };
  next_order_id = 1;
  responses = [];
  updates = [];
}

abbrev engine : MatchingEngine
engine = record {
  ticker_order_book = λ _. no_orders;
  incoming_request_queue = push (new_queue blank_request 4) first_order;
  outcoming_response_queue = new_queue blank_response 4;
  market_updates_queue = new_queue blank_update 4;
}

abbrev or_else : Result MeOrderBook → MeOrderBook → MeOrderBook
or_else (ok b) c = b
or_else (err e) c = c

-- The book with the order in it.
abbrev one_bid : MeOrderBook
one_bid = or_else (run_book no_orders first_order) no_orders

run_round-Served_example : Returns (Served engine first_order one_bid) (run_round engine)
unfolding new_queue push get_next_read run_book add match_loop send_client_response
    generate_next_order_id get_priority allocate add_order_to_price_level set_order
    set_order_at_price set_level set_side_head send_market_update
run_round-Served_example =
    run_round-Served engine first_order one_bid
      (record {
        requests =
            (contents-push (new_queue blank_request 4) first_order
              (new_queue-IsValid blank_request 4 (omega arith)).0 (omega arith)).0;
        responses = (new_queue-IsValid blank_response 4 (omega arith)).0;
        updates = (new_queue-IsValid blank_update 4 (omega arith)).0;
      })
      refl (omega arith) refl (record { for_responses = omega arith; for_updates = omega arith })
