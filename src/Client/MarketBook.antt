-- ===== src/Client/MarketBook.antt =====
-- src/client/market_order_book.cpp, include/client/market_order_book.hpp and market_order.hpp: the
-- client's copy of one instrument's book, kept from market updates, with its best prices.
pub mod State
pub mod Printing
pub mod Levels
pub mod Remove
pub mod Handlers
