-- ===== src/Messages/Update.antt =====
-- include/exchange/market_data.hpp.
use Prim.Native.String.{String}
use trading_system.Prelude.{ℕ}
use trading_system.Types.{
  Side, side_invalid, order_id_invalid, ticker_id_invalid, price_invalid, qty_invalid,
  priority_invalid,
}

pub data MarketUpdateType : Type 0 where
  invalid add modify cancel trade clear snapshot_start snapshot_end : MarketUpdateType

-- What `operator<<` writes.
pub update_type_name : MarketUpdateType → String
update_type_name MarketUpdateType.invalid = "INVALID"
update_type_name MarketUpdateType.add = "ADD"
update_type_name MarketUpdateType.modify = "MODIFY"
update_type_name MarketUpdateType.cancel = "CANCEL"
update_type_name MarketUpdateType.trade = "TRADE"
update_type_name MarketUpdateType.clear = "CLEAR"
update_type_name MarketUpdateType.snapshot_start = "SNAPSHOT_START"
update_type_name MarketUpdateType.snapshot_end = "SNAPSHOT_END"

pub record MeMarketUpdate : Type 0 where
  pub type : MarketUpdateType
  pub order_id : ℕ
  pub ticker_id : ℕ
  pub side : Side
  pub price : ℕ
  pub qty : ℕ
  pub priority : ℕ

-- The default values of the fields.
abbrev pub blank_update : MeMarketUpdate
blank_update = record {
  type = MarketUpdateType.invalid;
  order_id = order_id_invalid;
  ticker_id = ticker_id_invalid;
  side = side_invalid;
  price = price_invalid;
  qty = qty_invalid;
  priority = priority_invalid;
}

-- An update with its sequence number, as it travels to the clients.
pub record MdpMarketUpdate : Type 0 where
  pub seq_num : ℕ
  pub me_market_update : MeMarketUpdate

abbrev pub blank_mdp_update : MdpMarketUpdate
blank_mdp_update = record { seq_num = 0; me_market_update = blank_update }
