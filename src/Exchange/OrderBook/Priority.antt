-- ===== src/Exchange/OrderBook/Priority.antt =====
-- Price-time priority: what matching means for the list of the resting orders of a side, best price
-- first and oldest first at each price, and that src/exchange/order_book.cpp does it.
pub mod Step
pub mod Round
pub mod Refine
mod Samples
mod Tests
use trading_system.Prelude.{
  ℕ, ◌-◌, Bool, List, [], ◌∷◌, ◌++◌, map, leb, ◌==◌, if◌then◌else◌, ◌||◌, not,
}
use trading_system.Types.{Side, buy, sell, is_buy}
use trading_system.Exchange.OrderBook.State.{MeOrder, MeOrderBook, order_at}
use trading_system.Exchange.OrderBook.Handlers.{Incoming}
use trading_system.Exchange.OrderBook.Shape.{Queue, resting}
use trading_system.Exchange.OrderBook.Shape.Relinking.{bare}

-- The orders in the cells `is`, without their links.
abbrev pub orders_in : MeOrderBook → List ℕ → List MeOrder
orders_in b [] = []
orders_in b (i ∷ is) = bare (order_at b i) ∷ orders_in b is

-- The resting orders of a side in priority order.
abbrev pub view : MeOrderBook → List Queue → List MeOrder
view b qs = orders_in b (resting qs)

-- A buy at `limit` trades at no more than `limit`, a sell at no less.
abbrev pub within : Side → ℕ → ℕ → Bool
within buy limit price = leb price limit
within _ limit price = leb limit price

-- What is left of an incoming order of quantity `left`, and of the orders that it meets: it trades
-- against the first one until it is used up, or until the price of the first one is beyond its limit.
abbrev pub matched : Incoming → ℕ → List MeOrder → ℕ × List MeOrder
matched a left [] = (left, [])
matched a left (o ∷ os) =
    let rest = matched a (left - o.qty) os in
    if left == 0 || not (within a.side a.price o.price)
    then (left, o ∷ os)
    else (if leb o.qty left then rest else (0, record o { qty = o.qty - left } ∷ os))

-- The side that an order of side `s` trades against.
abbrev pub passive : Side → Side
passive buy = sell
passive _ = buy
