-- ===== src/Messages/Response.antt =====
-- include/exchange/client_response.hpp.
use Prim.Native.String.{String}
use trading_system.Prelude.{ℕ}
use trading_system.Types.{
  Side, side_invalid, order_id_invalid, ticker_id_invalid, client_id_invalid, price_invalid,
  qty_invalid,
}

pub data ClientResponseType : Type 0 where
  invalid accepted cancelled filled cancel_rejected : ClientResponseType

-- What `operator<<` writes.
pub response_type_name : ClientResponseType → String
response_type_name ClientResponseType.invalid = "INVALID"
response_type_name ClientResponseType.accepted = "ACCEPTED"
response_type_name ClientResponseType.cancelled = "CANCELLED"
response_type_name ClientResponseType.filled = "FILLED"
response_type_name ClientResponseType.cancel_rejected = "CANCEL_REJECTED"

pub record MeClientResponse : Type 0 where
  pub type : ClientResponseType
  pub client_id : ℕ
  pub ticker_id : ℕ
  pub client_order_id : ℕ
  pub market_order_id : ℕ
  pub side : Side
  pub price : ℕ
  pub exec_qty : ℕ
  pub left_qty : ℕ

-- The default values of the fields.
abbrev pub blank_response : MeClientResponse
blank_response = record {
  type = ClientResponseType.invalid;
  client_id = client_id_invalid;
  ticker_id = ticker_id_invalid;
  client_order_id = order_id_invalid;
  market_order_id = order_id_invalid;
  side = side_invalid;
  price = price_invalid;
  exec_qty = qty_invalid;
  left_qty = qty_invalid;
}

-- A response with its sequence number, as it travels to the client.
pub record OgClientResponse : Type 0 where
  pub seq_num : ℕ
  pub me_client_response : MeClientResponse
