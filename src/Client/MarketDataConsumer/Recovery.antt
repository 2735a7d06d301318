-- ===== src/Client/MarketDataConsumer/Recovery.antt =====
-- Recovery from a gap: a whole snapshot, then the incremental updates that came meanwhile.
use trading_system.Prelude.{ℕ, ◌+◌, ◌-◌, ◌≡◌, false, List, [], ◌∷◌, ◌++◌, length, drop}
use trading_system.Messages.{MeMarketUpdate}
use trading_system.Exchange.MatchingEngine.{push_all}
use trading_system.Client.MarketDataConsumer.{MarketDataConsumer, is_end}
use trading_system.Client.MarketDataConsumer.Joining.{entries, forwardable}

-- None of the updates ends a snapshot.
abbrev pub NoEnd : List MeMarketUpdate → Type 0
NoEnd [] = Unit {0}
NoEnd (u ∷ us) = (is_end u.type ≡ false) × NoEnd us

abbrev pub with_snapshot : MarketDataConsumer → List MeMarketUpdate → MarketDataConsumer
with_snapshot c us = record c { snapshot_queue = entries 0 us }

-- The consumer once it has caught up by a snapshot with the body `body`, as of the number `last`,
-- and by the incremental updates `us`, numbered from `n` on.
abbrev pub caught_up :
    MarketDataConsumer → List MeMarketUpdate → ℕ → ℕ → List MeMarketUpdate → MarketDataConsumer
caught_up c body last n us = record c {
  exp_seq_num = n + length us;
  packet_lost = false;
  snapshot_joined = false;
  snapshot_queue = [];
  incremental_queue = [];
  incoming_market_update_queue =
      push_all c.incoming_market_update_queue (body ++ forwardable (drop (last + 1 - n) us));
}
