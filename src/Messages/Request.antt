-- ===== src/Messages/Request.antt =====
-- include/exchange/client_request.hpp.
use Prim.Native.String.{String}
use trading_system.Prelude.{ℕ}
use trading_system.Types.{
  Side, side_invalid, order_id_invalid, ticker_id_invalid, client_id_invalid, price_invalid,
  qty_invalid,
}

pub data ClientRequestType : Type 0 where
  invalid new cancel : ClientRequestType

-- What `operator<<` writes.
pub request_type_name : ClientRequestType → String
request_type_name ClientRequestType.invalid = "INVALID"
request_type_name ClientRequestType.new = "NEW"
request_type_name ClientRequestType.cancel = "CANCEL"

pub record MeClientRequest : Type 0 where
  pub type : ClientRequestType
  pub client_id : ℕ
  pub ticker_id : ℕ
  pub order_id : ℕ
  pub side : Side
  pub price : ℕ
  pub qty : ℕ

-- The default values of the fields.
abbrev pub blank_request : MeClientRequest
blank_request = record {
  type = ClientRequestType.invalid;
  client_id = client_id_invalid;
  ticker_id = ticker_id_invalid;
  order_id = order_id_invalid;
  side = side_invalid;
  price = price_invalid;
  qty = qty_invalid;
}

-- A request with its sequence number, as it travels to the exchange.
pub record OgClientRequest : Type 0 where
  pub seq_num : ℕ
  pub me_client_request : MeClientRequest
