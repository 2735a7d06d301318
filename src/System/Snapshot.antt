-- ===== src/System/Snapshot.antt =====
-- The snapshot synthetizer and a market data consumer that has lost a packet.
use trading_system.Exchange.SnapshotSynthetizer.{SnapshotSynthetizer}
use trading_system.Client.MarketDataConsumer.{MarketDataConsumer}
