-- ===== src/Client/RiskManager.antt =====
-- include/client/risk_manager.hpp, and `RiskCfg` of include/utils/types.hpp.
pub mod Limits
mod Tests
use Prim.Native.String.{String}
use trading_system.Prelude.{
  ℕ, Bool, Result, ok, ◌>>=◌, ◌>>◌, require, out_of_range, ltb, if◌then◌else◌,
}
use trading_system.Prelude.Int.{◌+ℤ◌, ◌*ℤ◌, pos, ltb_ℤ}
use trading_system.Types.{Side, side_to_value, me_max_tickers}
use trading_system.Client.Double.{Double}
use trading_system.Client.Int32.{signed32, abs}
use trading_system.Client.PositionKeeper.{PositionInfo, PositionKeeper}

pub data RiskCheckResult : Type 0 where
  invalid order_too_large position_too_large loss_too_large allowed : RiskCheckResult

pub risk_check_result_to_string : RiskCheckResult → String
risk_check_result_to_string RiskCheckResult.allowed = "ALLOWED"
risk_check_result_to_string RiskCheckResult.invalid = "INVALID"
risk_check_result_to_string RiskCheckResult.order_too_large = "ORDER_TOO_LARGE"
risk_check_result_to_string RiskCheckResult.position_too_large = "POSITION_TOO_LARGE"
risk_check_result_to_string RiskCheckResult.loss_too_large = "LOSS_TOO_LARGE"

module _ (d : Double) where
  pub record RiskCfg : Type 0 where
    pub max_order_size : ℕ
    pub max_position : ℕ
    pub max_loss : d.F

  -- The configuration of one instrument.
  pub record TradeEngineCfg : Type 0 where
    pub clip : ℕ
    pub threshold : d.F
    pub risk_cfg : RiskCfg

  -- `RiskInfo::checkPreTradeRisk`. The sum of two `int32_t` is taken not to overflow.
  unfoldable pub check_pre_trade_risk : PositionInfo d → RiskCfg → Side → ℕ → RiskCheckResult
  check_pre_trade_risk p cfg side qty =
      if ltb cfg.max_order_size qty
      then RiskCheckResult.order_too_large
      else (if ltb_ℤ (signed32 cfg.max_position)
            (pos (abs (p.position +ℤ side_to_value side *ℤ signed32 qty)))
          then RiskCheckResult.position_too_large
          else (if d.less p.total_pnl cfg.max_loss
              then RiskCheckResult.loss_too_large
              else RiskCheckResult.allowed))

  -- `RiskManager::checkPreTradeRisk`; it reads the positions of the position keeper.
  unfoldable pub manager_check :
      PositionKeeper d → (ℕ → TradeEngineCfg) → ℕ → Side → ℕ → Result RiskCheckResult
  manager_check k cfg t side qty =
      require (ltb t me_max_tickers) out_of_range
      >> ok (check_pre_trade_risk (k t) (cfg t).risk_cfg side qty)
