-- ===== src/Client/RiskManager/Tests.antt =====
-- Orders before the risk manager, and the positions that it reads.
use trading_system.Client.Samples.{whole_numbers}
use trading_system.Prelude.Int.{pos}
use trading_system.Types.{buy}
use trading_system.Client.MarketBook.State.{blank_bbo}
use trading_system.Client.PositionKeeper.{PositionInfo}
use trading_system.Messages.{ClientResponseType, MeClientResponse, blank_response}

abbrev flat : PositionInfo whole_numbers
flat = record {
  position = pos 0;
  real_pnl = pos 0;
  unreal_pnl = pos 0;
  total_pnl = pos 0;
  open_vwap = λ _. pos 0;
  volume = 0;
  bbo = blank_bbo;
}

abbrev bought : MeClientResponse
bought = record blank_response {
  type = ClientResponseType.filled;
  side = buy;
  price = 100;
  exec_qty = 3;
}
