-- ===== src/Exchange.antt =====
-- The exchange: src/exchange and include/exchange.
pub mod OrderBook
pub mod MatchingEngine
pub mod FifoSequencer
pub mod OrderServer
pub mod MarketDataPublisher
pub mod SnapshotSynthetizer
