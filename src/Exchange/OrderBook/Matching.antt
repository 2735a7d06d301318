-- ===== src/Exchange/OrderBook/Matching.antt =====
-- What matching, cancelling and removing do: quantities, prices, messages, and when they return.
pub mod Quiet
pub mod Keeping
pub mod Removal
pub mod Trade
pub mod Loop
pub mod Cancel
pub mod Returning
