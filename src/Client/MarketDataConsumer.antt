-- ===== src/Client/MarketDataConsumer.antt =====
-- src/client/market_data_consumer.cpp and include/client/market_data_consumer.hpp: market updates in
-- sequence, and recovery from a gap by a snapshot and the queued incremental updates.
pub mod Queue
pub mod Joining
pub mod Recovery
mod Tests
pub mod Gap
pub mod Packets
use trading_system.Prelude.{
  ℕ, ◌+◌, Bool, true, false, ◌||◌, ◌&&◌, not, List, [], ◌∷◌, ◌++◌, Option, none, some, ltb, ◌==◌,
  if◌then◌else◌,
}
use trading_system.Messages.{MarketUpdateType, MeMarketUpdate, MdpMarketUpdate}
use trading_system.SpscQueue.{SpscQueue}
use trading_system.Exchange.MatchingEngine.{push_all}
use Queue.{QueuedMarketUpdate, insert, contains, is_empty, first_update, last_update}

-- `snapshot_joined`: the snapshot socket is open and subscribed.
pub record MarketDataConsumer : Type 0 where
  pub exp_seq_num : ℕ
  pub packet_lost : Bool
  pub snapshot_joined : Bool
  pub snapshot_queue : QueuedMarketUpdate
  pub incremental_queue : QueuedMarketUpdate
  pub incoming_market_update_queue : SpscQueue MeMarketUpdate

unfoldable pub new_consumer : SpscQueue MeMarketUpdate → MarketDataConsumer
new_consumer q = record {
  exp_seq_num = 1;
  packet_lost = false;
  snapshot_joined = false;
  snapshot_queue = [];
  incremental_queue = [];
  incoming_market_update_queue = q;
}

-- A snapshot marker is not forwarded.
abbrev pub is_marker : MarketUpdateType → Bool
is_marker MarketUpdateType.snapshot_start = true
is_marker MarketUpdateType.snapshot_end = true
is_marker _ = false

abbrev pub is_start : MarketUpdateType → Bool
is_start MarketUpdateType.snapshot_start = true
is_start _ = false

abbrev pub is_end : MarketUpdateType → Bool
is_end MarketUpdateType.snapshot_end = true
is_end _ = false

abbrev pub keep_update : MeMarketUpdate → List MeMarketUpdate → List MeMarketUpdate
keep_update u us = if is_marker u.type then us else u ∷ us

-- The loop over the snapshot messages: `none` at a gap in the numbers from `next` on.
unfoldable pub join_snapshot : ℕ → QueuedMarketUpdate → Option (List MeMarketUpdate)
join_snapshot next [] = some []
join_snapshot next ((n, u) ∷ q) =
    let rest = join_snapshot (next + 1) q in
    if not (n == next)
    then none
    else (elim rest [ none ↦ none | some us ↦ some (keep_update u us) ])

-- The loop over the incremental messages: the expected number at the end, and the updates, `none`
-- at a gap.
unfoldable pub join_incremental : ℕ → QueuedMarketUpdate → ℕ × Option (List MeMarketUpdate)
join_incremental expected [] = (expected, some [])
join_incremental expected ((n, u) ∷ q) =
    let skip = join_incremental expected q in
    let next = join_incremental (expected + 1) q in
    if ltb n expected
    then skip
    else (if not (n == expected)
        then (expected, none)
        else (next.0, (elim next.1 [ none ↦ none | some us ↦ some (keep_update u us) ])))

unfoldable pub start_snapshot_sync : MarketDataConsumer → MarketDataConsumer
start_snapshot_sync c = record c {
  snapshot_queue = [];
  incremental_queue = [];
  snapshot_joined = true;
}

-- What follows the loop over the snapshot messages, which gave `snapshot`: the last message is
-- looked at, and the incremental messages are joined.
unfoldable pub finish_sync :
    MarketDataConsumer → MeMarketUpdate → List MeMarketUpdate → MarketDataConsumer
unfolding join_incremental
finish_sync c last snapshot =
    let (expected, joined) = join_incremental (last.order_id + 1) c.incremental_queue in
    elim joined [
      | none ↦ record c { exp_seq_num = expected; snapshot_queue = [] }
      | some us ↦ record c {
        exp_seq_num = expected;
        packet_lost = false;
        snapshot_joined = false;
        snapshot_queue = [];
        incremental_queue = [];
        incoming_market_update_queue = push_all c.incoming_market_update_queue (snapshot ++ us);
      }
    ]

unfoldable pub check_snapshot_sync : MarketDataConsumer → MarketDataConsumer
unfolding join_snapshot finish_sync
check_snapshot_sync c = elim (first_update c.snapshot_queue) [
  | none ↦ c
  | some first ↦
      if not (is_start first.type)
      then record c { snapshot_queue = [] }
      else (elim (join_snapshot 0 c.snapshot_queue) [
        | none ↦ record c { snapshot_queue = [] }
        | some snapshot ↦ (elim (last_update c.snapshot_queue) [
          | none ↦ c
          | some last ↦ if is_end last.type then finish_sync c last snapshot else c
        ])
      ])
]

-- A snapshot number that is there already starts the snapshot queue anew.
unfoldable pub queue_message : MarketDataConsumer → Bool → MdpMarketUpdate → MarketDataConsumer
unfolding check_snapshot_sync
queue_message c is_snapshot m =
    let kept : QueuedMarketUpdate =
      if contains m.seq_num c.snapshot_queue then [] else c.snapshot_queue in
    check_snapshot_sync (
      if is_snapshot
      then record c { snapshot_queue = insert m.seq_num m.me_market_update kept }
      else record c { incremental_queue = insert m.seq_num m.me_market_update c.incremental_queue })

-- The body of the loop of `recvCallbacks`.
unfoldable pub recv_message : MarketDataConsumer → Bool → MdpMarketUpdate → MarketDataConsumer
unfolding queue_message start_snapshot_sync
recv_message c is_snapshot m =
    if c.packet_lost
    then queue_message c is_snapshot m
    else (if not (m.seq_num == c.exp_seq_num)
        then queue_message (start_snapshot_sync (record c { packet_lost = true })) is_snapshot m
        else (if is_snapshot then c else record c {
          exp_seq_num = c.exp_seq_num + 1;
          incoming_market_update_queue =
              push_all c.incoming_market_update_queue (m.me_market_update ∷ []);
        }))

unfoldable pub recv_loop : MarketDataConsumer → Bool → List MdpMarketUpdate → MarketDataConsumer
unfolding recv_message
recv_loop c is_snapshot [] = c
recv_loop c is_snapshot (m ∷ ms) = recv_loop (recv_message c is_snapshot m) is_snapshot ms

-- `recvCallbacks` over the whole messages of a buffer. A snapshot message out of recovery empties
-- the buffer.
unfoldable pub recv_callbacks :
    MarketDataConsumer → Bool → List MdpMarketUpdate → MarketDataConsumer
unfolding recv_loop
recv_callbacks c is_snapshot ms =
    if not c.packet_lost && is_snapshot then c else recv_loop c is_snapshot ms
