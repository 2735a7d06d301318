-- ===== src/System.antt =====
-- The components joined: what holds across the exchange and a client.
pub mod Delivery
pub mod Requests
pub mod MarketData
pub mod Snapshot
pub mod Stream
mod Tests
