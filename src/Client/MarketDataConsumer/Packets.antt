-- ===== src/Client/MarketDataConsumer/Packets.antt =====
-- src/client/market_data_consumer.cpp: the bytes in the buffer of a socket. They are read by the
-- parameter `decode`, the layout of the packed struct.
pub mod Whole
use trading_system.Prelude.{
  ℕ, zero, suc, Bool, ◌&&◌, not, List, [], leb, length, take, drop, if◌then◌else◌,
}
use trading_system.Messages.{MdpMarketUpdate}
use trading_system.Client.MarketDataConsumer.{MarketDataConsumer, recv_message}

-- `sizeof(MDPMarketUpdate)`: the struct is packed.
abbrev pub message_size : ℕ
message_size = 42

module _ (decode : List ℕ → MdpMarketUpdate) where
  -- The loop: the first message is handled, and the bytes behind it move to the front.
  unfoldable pub recv_bytes : ℕ → MarketDataConsumer → Bool → List ℕ → MarketDataConsumer × List ℕ
  recv_bytes zero c is_snapshot bytes = (c, bytes)
  recv_bytes (suc fuel) c is_snapshot bytes =
      let handled = recv_message c is_snapshot (decode (take message_size bytes)) in
      let rest = recv_bytes fuel handled is_snapshot (drop message_size bytes) in
      if leb message_size (length bytes) then rest else (c, bytes)

  -- The consumer and the buffer after a callback. A snapshot packet out of recovery empties the
  -- buffer.
  unfoldable pub recv_packet : MarketDataConsumer → Bool → List ℕ → MarketDataConsumer × List ℕ
  unfolding recv_bytes
  recv_packet c is_snapshot bytes =
      let handled = recv_bytes (length bytes) c is_snapshot bytes in
      if not c.packet_lost && is_snapshot then (c, []) else handled
