-- ===== src/Client/FeatureEngine.antt =====
-- include/client/feature_engine.hpp: two numbers that the strategies read.
use trading_system.Prelude.{◌+◌, ◌*◌, ◌%◌, ◌^◌, Bool, not, ◌&&◌, ◌==◌, if◌then◌else◌}
use trading_system.Types.{is_buy, price_invalid}
use trading_system.Messages.{MeMarketUpdate}
use trading_system.Client.Double.{Double}
use trading_system.Client.MarketBook.State.{Bbo}

-- Both best prices are known.
abbrev pub has_prices : Bbo → Bool
has_prices bbo = not (bbo.bid_price == price_invalid) && not (bbo.ask_price == price_invalid)

module _ (d : Double) where
  open d use {F, of_ℕ, divide, quiet_nan}

  pub record FeatureEngine : Type 0 where
    pub mkt_price : F
    pub agg_trade_qty_ratio : F

  unfoldable pub new_engine : FeatureEngine
  new_engine = record { mkt_price = quiet_nan; agg_trade_qty_ratio = quiet_nan }

  -- The numerator is a sum of 64-bit products, the denominator a 32-bit sum.
  unfoldable pub weighted_price : Bbo → F
  weighted_price bbo =
      divide
        (of_ℕ
          ((bbo.bid_price * bbo.bid_qty % 2 ^ 64 + bbo.ask_price * bbo.ask_qty % 2 ^ 64) % 2 ^ 64))
        (of_ℕ ((bbo.ask_qty + bbo.bid_qty) % 2 ^ 32))

  unfoldable pub on_order_book_update : FeatureEngine → Bbo → FeatureEngine
  unfolding weighted_price
  on_order_book_update e bbo =
      if has_prices bbo then record e { mkt_price = weighted_price bbo } else e

  unfoldable pub on_trade_update : FeatureEngine → MeMarketUpdate → Bbo → FeatureEngine
  on_trade_update e u bbo =
      if has_prices bbo
      then record e {
        agg_trade_qty_ratio =
            divide (of_ℕ u.qty) (of_ℕ (if is_buy u.side then bbo.ask_qty else bbo.bid_qty));
      }
      else e
