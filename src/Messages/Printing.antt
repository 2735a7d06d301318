-- ===== src/Messages/Printing.antt =====
-- The `toString` of each message. `operator<<` of a sequence number is `std::to_string`.
use Prim.Native.String.{String, ◌++◌}
use trading_system.Prelude.{◌%◌, ◌^◌}
use trading_system.Types.{side_to_string}
use trading_system.Types.Printing.{
  to_string, order_id_to_string, ticker_id_to_string, client_id_to_string, price_to_string,
  qty_to_string,
}
use trading_system.Messages.{
  MeClientRequest, OgClientRequest, request_type_name, MeClientResponse, OgClientResponse,
  response_type_name, MeMarketUpdate, MdpMarketUpdate, update_type_name,
}

unfoldable pub request_to_string : MeClientRequest → String
request_to_string r =
    "MEClientRequest"
    ++ " ["
    ++ "type:"
    ++ request_type_name r.type
    ++ " client:"
    ++ client_id_to_string r.client_id
    ++ " ticker:"
    ++ ticker_id_to_string r.ticker_id
    ++ " oid:"
    ++ order_id_to_string r.order_id
    ++ " side:"
    ++ side_to_string r.side
    ++ " qty:"
    ++ qty_to_string r.qty
    ++ " price:"
    ++ price_to_string r.price
    ++ "]"

pub og_request_to_string : OgClientRequest → String
unfolding request_to_string
og_request_to_string r =
    "OGClientRequests"
    ++ " ["
    ++ " seq num: "
    ++ to_string r.seq_num
    ++ " :"
    ++ request_to_string r.me_client_request
    ++ "]"

unfoldable pub response_to_string : MeClientResponse → String
response_to_string r =
    "MEClientResponse"
    ++ " ["
    ++ "type:"
    ++ response_type_name r.type
    ++ " client:"
    ++ client_id_to_string r.client_id
    ++ " ticker:"
    ++ ticker_id_to_string r.ticker_id
    ++ " client oid:"
    ++ order_id_to_string r.client_order_id
    ++ " market oid:"
    ++ order_id_to_string r.market_order_id
    ++ " side:"
    ++ side_to_string r.side
    ++ " executed qty:"
    ++ qty_to_string r.exec_qty
    ++ " left qty:"
    ++ qty_to_string r.left_qty
    ++ " price:"
    ++ price_to_string r.price
    ++ "]"

pub og_response_to_string : OgClientResponse → String
unfolding response_to_string
og_response_to_string r =
    "OGClientResponse"
    ++ " ["
    ++ " seq num: "
    ++ to_string r.seq_num
    ++ " :"
    ++ response_to_string r.me_client_response
    ++ "]"

-- The order number is printed as a client number, which cuts it to 32 bits, and the priority as a
-- price. The quantity is not printed.
unfoldable pub update_to_string : MeMarketUpdate → String
update_to_string u =
    "MEMarketUpdate"
    ++ " ["
    ++ "type:"
    ++ update_type_name u.type
    ++ " orderID:"
    ++ client_id_to_string (u.order_id % 2 ^ 32)
    ++ " ticker:"
    ++ ticker_id_to_string u.ticker_id
    ++ " side:"
    ++ side_to_string u.side
    ++ " price:"
    ++ price_to_string u.price
    ++ " priority:"
    ++ price_to_string u.priority
    ++ "]"

pub mdp_update_to_string : MdpMarketUpdate → String
unfolding update_to_string
mdp_update_to_string u =
    "MDParketUpdate"
    ++ " ["
    ++ " seq num: "
    ++ to_string u.seq_num
    ++ " message: "
    ++ update_to_string u.me_market_update
    ++ "]"
