-- ===== src/Client/MarketDataConsumer/Tests.antt =====
-- A consumer that misses message 3 and recovers.
use trading_system.Prelude.{ℕ, none, ◌≡◌, refl, false, [], ◌∷◌, arith}
use trading_system.Messages.{MarketUpdateType, MeMarketUpdate, MdpMarketUpdate, blank_update}
use trading_system.SpscQueue.{new_queue}
use trading_system.Client.MarketDataConsumer.{MarketDataConsumer, recv_loop}
use trading_system.Client.MarketDataConsumer.Gap.{
  waiting, keeping, kept_at, last_at, Rises, gap-Kept,
}
use trading_system.Client.MarketDataConsumer.Queue.{QueuedMarketUpdate}

abbrev one : MeMarketUpdate
one = record blank_update { type = MarketUpdateType.add; order_id = 1; qty = 10 }

abbrev two : MeMarketUpdate
two = record blank_update { type = MarketUpdateType.add; order_id = 2; qty = 20 }

abbrev in_step : MarketDataConsumer
in_step = record {
  exp_seq_num = 3;
  packet_lost = false;
  snapshot_joined = false;
  snapshot_queue = [];
  incremental_queue = [];
  incoming_market_update_queue = new_queue blank_update 8;
}

-- Messages 4 and 5 are kept.
abbrev behind : MarketDataConsumer
behind = waiting in_step 4 (one ∷ two ∷ [])

abbrev numbered : ℕ → MeMarketUpdate → MdpMarketUpdate
numbered n u = record { seq_num = n; me_market_update = u }

-- Message 6 comes before message 5, and twice.
gap-Kept_example :
    (p : QueuedMarketUpdate) × (recv_loop in_step false
        (numbered 4 one ∷ numbered 6 one ∷ numbered 5 two ∷ numbered 6 two ∷ [])
      ≡ keeping in_step p)
    × Rises p
    × ((k : ℕ)
        → kept_at k p
          ≡ last_at k none (numbered 4 one ∷ numbered 6 one ∷ numbered 5 two ∷ numbered 6 two ∷ []))
gap-Kept_example =
    gap-Kept in_step (numbered 4 one) (numbered 6 one ∷ numbered 5 two ∷ numbered 6 two ∷ []) refl
      (omega arith)
