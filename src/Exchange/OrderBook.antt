-- ===== src/Exchange/OrderBook.antt =====
-- src/exchange/order_book.cpp, include/exchange/order_book.hpp and me_order.hpp: the limit order
-- book of one instrument. The children hold the state, the price levels, and the handlers.
pub mod State
pub mod Printing
pub mod Levels
pub mod Remove
pub mod Handlers
pub mod Matching
pub mod Shape
pub mod Priority
mod Tests
