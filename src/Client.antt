-- ===== src/Client.antt =====
-- The trading client: src/client and include/client.
mod Samples
pub mod Double
pub mod Int32
pub mod MarketBook
pub mod PositionKeeper
pub mod RiskManager
pub mod OrderManager
pub mod FeatureEngine
pub mod Strategies
pub mod RandomTrader
pub mod OrderGateway
pub mod MarketDataConsumer
pub mod TradeEngine
pub mod Arguments
