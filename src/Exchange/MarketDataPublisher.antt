-- ===== src/Exchange/MarketDataPublisher.antt =====
-- src/exchange/market_data_publisher.cpp: market updates get consecutive sequence numbers, go out on
-- the incremental stream, and are passed on to the snapshot synthetizer.
use trading_system.Prelude.{
  ℕ, zero, suc, err, out_of_fuel, ◌+◌, List, [], ◌∷◌, ◌++◌, none, some, Result, ok, ◌>>=◌,
}
use trading_system.Messages.{MeMarketUpdate, MdpMarketUpdate}
use trading_system.SpscQueue.{SpscQueue, push, get_next_read, update_next_read}

-- `sent` is what went to the incremental socket, oldest first.
pub record MarketDataPublisher : Type 0 where
  pub next_seq_num : ℕ
  pub outgoing_market_data : SpscQueue MeMarketUpdate
  pub snapshot_updates : SpscQueue MdpMarketUpdate
  pub sent : List MdpMarketUpdate

-- The body of the loop of `run`, with `market_update` pointing to the slot to be read next. The slot is
-- read for the incremental socket, released, and then read again for the snapshot queue; here
-- the producer does not run in between.
unfoldable pub publish : MarketDataPublisher → Result MarketDataPublisher
publish p = do
  let slot = p.outgoing_market_data.next_read_idx
  let sent = p.outgoing_market_data.store slot
  q ← update_next_read p.outgoing_market_data
  ok (record p {
    next_seq_num = p.next_seq_num + 1;
    outgoing_market_data = q;
    snapshot_updates =
        push p.snapshot_updates
          (record { seq_num = p.next_seq_num; me_market_update = q.store slot });
    sent = p.sent ++ (record { seq_num = p.next_seq_num; me_market_update = sent } ∷ []);
  })

-- The `for` loop of `run`, until no update is found. Its test of `size` adds nothing here, as
-- `get_next_read` finds no slot in a queue without elements.
unfoldable pub publish_waiting : ℕ → MarketDataPublisher → Result MarketDataPublisher
unfolding publish
publish_waiting zero p = elim (get_next_read p.outgoing_market_data) [
  | none ↦ ok p
  | some u ↦ err out_of_fuel
]
publish_waiting (suc fuel) p = elim (get_next_read p.outgoing_market_data) [
  | none ↦ ok p
  | some u ↦ publish p >>= λ q. publish_waiting fuel q
]
