-- ===== src/Client/TradeEngine/Tests.antt =====
-- A client at work.
use trading_system.Prelude.Int.{pos}
use trading_system.Client.MarketBook.State.{blank_bbo}
use trading_system.Prelude.{false, ◌≡◌, refl, some, ok, update}
use trading_system.Types.{random}
use trading_system.Messages.{
  ClientRequestType, blank_request, ClientResponseType, blank_response, MarketUpdateType,
  blank_update,
}
use trading_system.SpscQueue.{new_queue, push, get_next_read}
use trading_system.Client.PositionKeeper.{new_position}
use trading_system.Client.Samples.{whole_numbers, limits, empty_book}
use trading_system.Client.OrderManager.{new_manager}
use trading_system.Client.FeatureEngine
use trading_system.Client.RandomTrader.{on_timer}
use trading_system.Client.RandomTrader.Samples.{due, due-IsValid, asked_for, at_20}
use trading_system.Client.TradeEngine.{TradeEngine, run_round}
use trading_system.Client.TradeEngine.Randomness.{AtMostOne, run_round-AtMostOne}

-- A client of the random trader, with one response to read.
abbrev waiting : TradeEngine whole_numbers
waiting = record {
  algo_type = random;
  ticker_cfg = λ _. record { clip = 5; threshold = pos 1; risk_cfg = limits };
  ticker_order_book = λ _. empty_book;
  feature_engine = FeatureEngine.new_engine whole_numbers;
  position_keeper = λ _. new_position whole_numbers;
  order_manager = new_manager 3;
  random_algo = some due;
  outgoing_requests = new_queue blank_request 4;
  incoming_responses =
      push (new_queue blank_response 4)
        (record blank_response { type = ClientResponseType.accepted; client_id = 3 });
  incoming_market_updates =
      push (new_queue blank_update 4)
        (record blank_update { type = MarketUpdateType.trade; ticker_id = 1 });
  last_event_time = 0;
}

abbrev served : TradeEngine whole_numbers
served = record waiting {
  ticker_order_book = update (λ _. empty_book) 1 empty_book;
  random_algo = some (record due { cancel_next = false; next_action_time = 20000025 });
  outgoing_requests =
      push (new_queue blank_request 4) (record asked_for { type = ClientRequestType.cancel });
  feature_engine =
      FeatureEngine.on_trade_update whole_numbers (FeatureEngine.new_engine whole_numbers)
        (record blank_update { type = MarketUpdateType.trade; ticker_id = 1 }) blank_bbo;
  incoming_responses = record (waiting.incoming_responses) { next_read_idx = 1; num_elements = 0 };
  incoming_market_updates = record (waiting.incoming_market_updates) {
    next_read_idx = 1;
    num_elements = 0;
  };
  last_event_time = 31;
}

waiting-served : run_round whole_numbers waiting at_20 30 31 ≡ ok served
unfolding run_round on_timer push new_queue get_next_read trading_system.SpscQueue.update_next_read
    trading_system.Client.MarketBook.Handlers.on_market_update
waiting-served = refl

run_round-AtMostOne_example : AtMostOne whole_numbers 3 waiting served
run_round-AtMostOne_example =
    run_round-AtMostOne whole_numbers waiting served due at_20 30 31 refl refl due-IsValid refl
      waiting-served
