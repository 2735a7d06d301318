-- ===== src/Exchange/OrderBook/Printing.antt =====
-- The `toString` of an order and of a price level: include/exchange/me_order.hpp.
use Prim.Native.String.{String, ◌++◌}
use trading_system.Prelude.{Result, ok, ◌>>=◌, deref}
use trading_system.Types.{side_to_string}
use trading_system.Types.Printing.{
  order_id_to_string, ticker_id_to_string, client_id_to_string, price_to_string, qty_to_string,
  priority_to_string,
}
use trading_system.Exchange.OrderBook.State.{MeOrder, MeOrdersAtPrice, MeOrderBook, order_at}

pub order_to_string : MeOrder → String
order_to_string o =
    "MEOrder"
    ++ " ["
    ++ "ticker:"
    ++ ticker_id_to_string o.ticker_id
    ++ " client:"
    ++ client_id_to_string o.client_id
    ++ " client_oid:"
    ++ order_id_to_string o.client_order_id
    ++ " market_oid:"
    ++ order_id_to_string o.market_order_id
    ++ " side:"
    ++ side_to_string o.side
    ++ " price:"
    ++ price_to_string o.price
    ++ " qty:"
    ++ qty_to_string o.qty
    ++ " priority:"
    ++ priority_to_string o.priority
    ++ "]"

-- The first order is read through its pointer.
pub level_to_string : MeOrderBook → MeOrdersAtPrice → Result String
unfolding order_to_string
level_to_string b l = deref l.orders_head >>= λ i. ok (
    "MEOrdersAtPrice"
    ++ " ["
    ++ "side:"
    ++ side_to_string l.side
    ++ " price:"
    ++ price_to_string l.price
    ++ " orders:"
    ++ order_to_string (order_at b i)
    ++ "]")
