-- ===== src/Client/TradeEngine.antt =====
-- src/client/trade_engine.cpp and include/client/trade_engine.hpp: market updates go to the books,
-- book changes to positions, features and the strategy, responses to positions and the strategy.
pub mod Silence
pub mod Randomness
mod Tests
use trading_system.Prelude.{
  ℕ, zero, suc, ◌-◌, ◌/◌, List, [], ◌∷◌, Option, none, some, Result, err, out_of_fuel, ok, ◌>>=◌,
  ◌>>◌, require, out_of_range, assert_failed, leb, ltb, update,
}
use trading_system.Types.{Side, AlgoType, random, maker, taker, me_max_tickers}
use trading_system.Messages.{ClientResponseType, MeClientRequest, MeClientResponse, MeMarketUpdate}
use trading_system.SpscQueue.{SpscQueue, push, get_next_read, update_next_read}
use trading_system.Client.Double.{Double}
use trading_system.Client.MarketBook.State.{MarketOrderBook, Bbo, new_book}
use trading_system.Client.MarketBook.Handlers.{Notice, trade_notice, book_notice, on_market_update}
use trading_system.Client.PositionKeeper.{
  PositionKeeper, new_position, keeper_add_fill, keeper_update_bbo,
}
use trading_system.Client.RiskManager.{RiskCheckResult, TradeEngineCfg, check_pre_trade_risk}
use trading_system.Client.OrderManager.{OrderManager, new_manager, on_order_update}
use trading_system.Client.FeatureEngine.{FeatureEngine}
use trading_system.Client.FeatureEngine
use trading_system.Client.RandomTrader.{RandomTrader, Tick, new_trader, on_timer}
use trading_system.Client.Strategies.{maker_on_order_book_update, taker_on_trade_update}

module _ (d : Double) where
  pub record TradeEngine : Type 0 where
    pub algo_type : AlgoType
    pub ticker_cfg : ℕ → TradeEngineCfg d
    pub ticker_order_book : ℕ → MarketOrderBook
    pub feature_engine : FeatureEngine d
    pub position_keeper : PositionKeeper d
    pub order_manager : OrderManager
    pub random_algo : Option RandomTrader
    pub outgoing_requests : SpscQueue MeClientRequest
    pub incoming_responses : SpscQueue MeClientResponse
    pub incoming_market_updates : SpscQueue MeMarketUpdate
    pub last_event_time : ℕ

  -- The risk manager reads the positions as they are now.
  abbrev pub risk_check : TradeEngine → ℕ → Side → ℕ → RiskCheckResult
  risk_check e t side qty =
      check_pre_trade_risk d (e.position_keeper t) ((e.ticker_cfg t).risk_cfg) side qty

  unfoldable pub send_client_request : TradeEngine → MeClientRequest → TradeEngine
  send_client_request e r = record e { outgoing_requests = push e.outgoing_requests r }

  -- `sendClientRequest` for each request of the order manager, oldest first.
  unfoldable pub send_client_requests : TradeEngine → List MeClientRequest → TradeEngine
  unfolding send_client_request
  send_client_requests e [] = e
  send_client_requests e (r ∷ rs) = send_client_requests (send_client_request e r) rs

  unfoldable pub store_manager : TradeEngine → OrderManager → TradeEngine
  unfolding send_client_requests
  store_manager e m =
      send_client_requests (record e { order_manager = record m { sent = [] } }) m.sent

  unfoldable pub on_random_timer : TradeEngine → Tick → Result TradeEngine
  unfolding send_client_requests
  on_random_timer e k = elim e.random_algo [
    | none ↦ ok e
    | some r ↦ on_timer r k >>= λ r1.
        ok
          (send_client_requests (record e { random_algo = some (record r1 { sent = [] }) }) r1.sent)
  ]

  -- `algoOnOrderBookUpdate_`, as the algorithm's constructor sets it: only the market maker acts.
  unfoldable pub algo_on_order_book_update : AlgoType → TradeEngine → ℕ → Bbo → Result TradeEngine
  algo_on_order_book_update maker e t bbo =
      maker_on_order_book_update d (risk_check e) e.order_manager e.feature_engine e.ticker_cfg t
        bbo
      >>= λ m. ok (store_manager e m)
  algo_on_order_book_update _ e t bbo = ok e

  -- `algoOnTradeUpdate_`: only the liquidity taker acts.
  unfoldable pub algo_on_trade_update :
      AlgoType → TradeEngine → MeMarketUpdate → Bbo → Result TradeEngine
  algo_on_trade_update taker e u bbo =
      taker_on_trade_update d (risk_check e) e.order_manager e.feature_engine e.ticker_cfg u bbo
      >>= λ m. ok (store_manager e m)
  algo_on_trade_update _ e u bbo = ok e

  -- `algoOnOrderUpdate_`: both strategies hand the response to the order manager.
  unfoldable pub algo_on_order_update :
      AlgoType → TradeEngine → MeClientResponse → Result TradeEngine
  algo_on_order_update maker e r =
      on_order_update e.order_manager r >>= λ m. ok (record e { order_manager = m })
  algo_on_order_update taker e r =
      on_order_update e.order_manager r >>= λ m. ok (record e { order_manager = m })
  algo_on_order_update _ e r = ok e

  unfoldable pub on_order_book_update : TradeEngine → ℕ → Bbo → Result TradeEngine
  unfolding algo_on_order_book_update
  on_order_book_update e t bbo = do
    k ← keeper_update_bbo d e.position_keeper t bbo
    let e1 = record e { position_keeper = k }
    let e2 = record e1 {
      feature_engine = FeatureEngine.on_order_book_update d e1.feature_engine bbo;
    }
    algo_on_order_book_update e2.algo_type e2 t bbo

  unfoldable pub on_trade_update : TradeEngine → MeMarketUpdate → Bbo → Result TradeEngine
  unfolding algo_on_trade_update
  on_trade_update e u bbo =
      let e1 = record e {
        feature_engine = FeatureEngine.on_trade_update d e.feature_engine u bbo;
      } in
      algo_on_trade_update e1.algo_type e1 u bbo

  -- Only a fill changes a position.
  unfoldable pub add_fill_of :
      ClientResponseType → TradeEngine → MeClientResponse → Result TradeEngine
  add_fill_of ClientResponseType.filled e r =
      keeper_add_fill d e.position_keeper r >>= λ k. ok (record e { position_keeper = k })
  add_fill_of _ e r = ok e

  -- `onOrderUpdate`.
  unfoldable pub on_response : TradeEngine → MeClientResponse → Result TradeEngine
  unfolding add_fill_of algo_on_order_update
  on_response e r = add_fill_of r.type e r >>= λ e1. algo_on_order_update e1.algo_type e1 r

  -- What the market book calls back.
  unfoldable pub notify : Notice → TradeEngine → MeMarketUpdate → Bbo → Result TradeEngine
  unfolding on_order_book_update on_trade_update
  notify trade_notice e u bbo = on_trade_update e u bbo
  notify book_notice e u bbo = on_order_book_update e u.ticker_id bbo

  -- One market update in the loop of `run`. The test admits one instrument too many, and the array is
  -- indexed without a bounds check.
  unfoldable pub on_update : TradeEngine → MeMarketUpdate → Result TradeEngine
  unfolding notify
  on_update e u = do
    require (leb u.ticker_id me_max_tickers) assert_failed
    require (ltb u.ticker_id me_max_tickers) out_of_range
    (b, notice) ← on_market_update (e.ticker_order_book u.ticker_id) u
    let e1 = record e { ticker_order_book = update e.ticker_order_book u.ticker_id b }
    notify notice e1 u b.bbo

  -- The books of the constructor. No entry from `n` on is read.
  unfoldable pub new_books : ℕ → Result (ℕ → MarketOrderBook)
  new_books zero = new_book 0 >>= λ b. ok (λ _. b)
  new_books (suc n) = new_books n >>= λ books. new_book n >>= λ b. ok (update books n b)

  -- The constructor: only the algorithm RANDOM has a random trader.
  unfoldable pub new_engine :
      ℕ
      → AlgoType
      → (ℕ → TradeEngineCfg d)
      → SpscQueue MeClientRequest
      → SpscQueue MeClientResponse
      → SpscQueue MeMarketUpdate
      → ℕ
      → (ℕ → ℕ)
      → Result TradeEngine
  unfolding new_books
  new_engine client algo cfg requests responses updates now draws = do
    books ← new_books me_max_tickers
    ok (record {
      algo_type = algo;
      ticker_cfg = cfg;
      ticker_order_book = books;
      feature_engine = FeatureEngine.new_engine d;
      position_keeper = λ _. new_position d;
      order_manager = new_manager client;
      random_algo = elim algo [ random ↦ some (new_trader client now draws) | _ ↦ none ];
      outgoing_requests = requests;
      incoming_responses = responses;
      incoming_market_updates = updates;
      last_event_time = now;
    })

  -- The two loops of `run` that empty a queue, for a producer that waits meanwhile. `now` is the
  -- clock after the last message.
  unfoldable pub run_responses : ℕ → ℕ → TradeEngine → Result TradeEngine
  unfolding on_response
  run_responses zero now e = elim (get_next_read e.incoming_responses) [
    | none ↦ ok e
    | some r ↦ err out_of_fuel
  ]
  run_responses (suc fuel) now e = elim (get_next_read e.incoming_responses) [
    | none ↦ ok e
    | some r ↦ do
      e1 ← on_response e r
      q ← update_next_read e1.incoming_responses
      run_responses fuel now (record e1 { incoming_responses = q; last_event_time = now })
  ]

  unfoldable pub run_updates : ℕ → ℕ → TradeEngine → Result TradeEngine
  unfolding on_update
  run_updates zero now e = elim (get_next_read e.incoming_market_updates) [
    | none ↦ ok e
    | some u ↦ err out_of_fuel
  ]
  run_updates (suc fuel) now e = elim (get_next_read e.incoming_market_updates) [
    | none ↦ ok e
    | some u ↦ do
      e1 ← on_update e u
      q ← update_next_read e1.incoming_market_updates
      run_updates fuel now (record e1 { incoming_market_updates = q; last_event_time = now })
  ]

  unfoldable pub random_turn : AlgoType → TradeEngine → Tick → Result TradeEngine
  unfolding on_random_timer
  random_turn random e k = on_random_timer e k
  random_turn _ e k = ok e

  -- One round of `run`.
  unfoldable pub run_round : TradeEngine → Tick → ℕ → ℕ → Result TradeEngine
  unfolding random_turn run_responses run_updates
  run_round e k after_responses after_updates = do
    e1 ← random_turn e.algo_type e k
    e2 ← run_responses e1.incoming_responses.num_elements after_responses e1
    run_updates e2.incoming_market_updates.num_elements after_updates e2

  unfoldable pub silent_seconds : TradeEngine → ℕ → ℕ
  silent_seconds e now = (now - e.last_event_time) / 1000000000
