-- ===== src/Client/MarketBook/Printing.antt =====
-- The `toString` of an order and of the best prices: include/client/market_order.hpp.
use Prim.Native.String.{String, ◌++◌}
use trading_system.Types.{side_to_string}
use trading_system.Types.Printing.{
  order_id_to_string, price_to_string, qty_to_string, priority_to_string,
}
use trading_system.Client.MarketBook.State.{MarketOrder, Bbo}

pub order_to_string : MarketOrder → String
order_to_string o =
    "MEOrder"
    ++ " ["
    ++ " orderId:"
    ++ order_id_to_string o.order_id
    ++ " side:"
    ++ side_to_string o.side
    ++ " price:"
    ++ price_to_string o.price
    ++ " qty:"
    ++ qty_to_string o.qty
    ++ " priority:"
    ++ priority_to_string o.priority
    ++ "]"

unfoldable pub bbo_to_string : Bbo → String
bbo_to_string b =
    "Best Bid Offer: "
    ++ qty_to_string b.bid_qty
    ++ "@"
    ++ price_to_string b.bid_price
    ++ " AND "
    ++ qty_to_string b.ask_qty
    ++ "@"
    ++ price_to_string b.ask_price
