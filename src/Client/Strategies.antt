-- ===== src/Client/Strategies.antt =====
-- include/client/market_maker.hpp and liquidity_taker.hpp: when each strategy moves its orders, and
-- to what prices. The constructors in the .cpp files register the callbacks with the trade engine.
use trading_system.Prelude.{ℕ, ◌+◌, ◌-◌, ◌%◌, ◌^◌, ◌&&◌, Result, ok, if◌then◌else◌}
use trading_system.Types.{Side, is_buy, price_invalid}
use trading_system.Messages.{MeMarketUpdate}
use trading_system.Client.Double.{Double}
use trading_system.Client.MarketBook.State.{Bbo}
use trading_system.Client.FeatureEngine.{has_prices, FeatureEngine}
use trading_system.Client.RiskManager.{RiskCheckResult, TradeEngineCfg}
use trading_system.Client.OrderManager.{OrderManager, move_orders}

module _ (d : Double) (check : ℕ → Side → ℕ → RiskCheckResult) where
  open d use {F, of_ℕ, minus, at_least, differs, quiet_nan}

  -- `bid_price - (fair - bid_price >= threshold ? 0 : 1)`, a 64-bit difference.
  unfoldable pub maker_bid : Bbo → F → F → ℕ
  maker_bid bbo fair threshold =
      if at_least (minus fair (of_ℕ bbo.bid_price)) threshold
      then bbo.bid_price
      else (bbo.bid_price + 2 ^ 64 - 1) % 2 ^ 64

  unfoldable pub maker_ask : Bbo → F → F → ℕ
  maker_ask bbo fair threshold =
      if at_least (minus (of_ℕ bbo.ask_price) fair) threshold
      then bbo.ask_price
      else (bbo.ask_price + 1) % 2 ^ 64

  -- `MarketMaker::onOrderBookUpdate`.
  unfoldable pub maker_on_order_book_update :
      OrderManager → FeatureEngine d → (ℕ → TradeEngineCfg d) → ℕ → Bbo → Result OrderManager
  unfolding maker_bid maker_ask
  maker_on_order_book_update m e cfg t bbo =
      if has_prices bbo && differs e.mkt_price quiet_nan
      then move_orders check m t (maker_bid bbo e.mkt_price (cfg t).threshold)
          (maker_ask bbo e.mkt_price (cfg t).threshold) (cfg t).clip
      else ok m

  -- `LiquidityTaker::onTradeUpdate`.
  unfoldable pub taker_on_trade_update :
      OrderManager
      → FeatureEngine d
      → (ℕ → TradeEngineCfg d)
      → MeMarketUpdate
      → Bbo
      → Result OrderManager
  taker_on_trade_update m e cfg u bbo =
      if has_prices bbo
        && differs e.agg_trade_qty_ratio quiet_nan
        && at_least e.agg_trade_qty_ratio (cfg u.ticker_id).threshold
      then (if is_buy u.side
          then move_orders check m u.ticker_id bbo.ask_price price_invalid (cfg u.ticker_id).clip
          else move_orders check m u.ticker_id price_invalid bbo.bid_price (cfg u.ticker_id).clip)
      else ok m
