-- ===== src/Exchange/SnapshotSynthetizer.antt =====
-- src/exchange/snapshot_synthetizer.cpp: the live orders of every instrument, kept from the
-- incremental stream, and published whole as a snapshot.
pub mod Orders
pub mod Adding
pub mod Cancelling
pub mod Modifying
mod Tests
use trading_system.Prelude.{
  ℕ, zero, suc, ◌+◌, List, [], ◌∷◌, ◌++◌, Option, none, some, Result, ok, err, ◌>>=◌, ◌>>◌, require,
  out_of_range, assert_failed, ltb, ◌==◌, update,
}
use trading_system.Types.{me_max_tickers, me_max_order_ids, same_side}
use trading_system.Messages.{MarketUpdateType, MeMarketUpdate, MdpMarketUpdate, blank_update}
use trading_system.MemPool.{MemPool, new_pool, allocate, deallocate, read, write}

pub record SnapshotSynthetizer : Type 0 where
  pub ticker_order_to_update : ℕ → ℕ → Option ℕ
  pub last_seq_num : ℕ
  pub update_pool : MemPool MeMarketUpdate

unfoldable pub new_synthetizer_sized : ℕ → Result SnapshotSynthetizer
new_synthetizer_sized cells = do
  pool ← new_pool blank_update cells
  ok (record { ticker_order_to_update = λ _ _. none; last_seq_num = 0; update_pool = pool })

unfoldable pub new_synthetizer : Result SnapshotSynthetizer
unfolding new_synthetizer_sized
new_synthetizer = new_synthetizer_sized me_max_order_ids

-- `orders->at(order_id) = v` for the orders of one instrument.
abbrev pub set_slot : SnapshotSynthetizer → ℕ → ℕ → Option ℕ → SnapshotSynthetizer
set_slot s t i v = record s {
  ticker_order_to_update =
      update s.ticker_order_to_update t (update (s.ticker_order_to_update t) i v);
}

-- `orders->at(order_id)`, which throws out of bounds.
abbrev pub slot : SnapshotSynthetizer → MeMarketUpdate → Result (Option ℕ)
slot s u =
    require (ltb u.order_id me_max_order_ids) out_of_range
    >> ok (s.ticker_order_to_update u.ticker_id u.order_id)

-- The live order that an update is about; the two `ASSERT`s on it.
unfoldable pub existing : SnapshotSynthetizer → MeMarketUpdate → Result ℕ
existing s u = do
  p ← slot s u
  elim p [
    | none ↦ err assert_failed
    | some i ↦
        require ((read s.update_pool i).order_id == u.order_id) assert_failed
        >> (require (same_side (read s.update_pool i).side u.side) assert_failed >> ok i)
  ]

unfoldable pub on_add : SnapshotSynthetizer → MeMarketUpdate → Result SnapshotSynthetizer
on_add s u = do
  p ← slot s u
  elim p [
    | some _ ↦ err assert_failed
    | none ↦ allocate s.update_pool u >>= λ r.
        ok (set_slot (record s { update_pool = r.1 }) u.ticker_id u.order_id (some r.0))
  ]

unfoldable pub on_modify : SnapshotSynthetizer → MeMarketUpdate → Result SnapshotSynthetizer
unfolding existing
on_modify s u = do
  i ← existing s u
  ok (record s {
    update_pool =
        write s.update_pool i (record (read s.update_pool i) { price = u.price; qty = u.qty });
  })

unfoldable pub on_cancel : SnapshotSynthetizer → MeMarketUpdate → Result SnapshotSynthetizer
unfolding existing
on_cancel s u = do
  i ← existing s u
  pool ← deallocate s.update_pool i
  ok (set_slot (record s { update_pool = pool }) u.ticker_id u.order_id none)

unfoldable pub apply_update : SnapshotSynthetizer → MeMarketUpdate → Result SnapshotSynthetizer
unfolding on_add on_modify on_cancel
apply_update s u = elim u.type [
  | MarketUpdateType.add ↦ on_add s u
  | MarketUpdateType.modify ↦ on_modify s u
  | MarketUpdateType.cancel ↦ on_cancel s u
  | _ ↦ ok s
]

unfoldable pub add_snapshot : SnapshotSynthetizer → MdpMarketUpdate → Result SnapshotSynthetizer
unfolding apply_update
add_snapshot s m = do
  require (ltb m.me_market_update.ticker_id me_max_tickers) out_of_range
  s1 ← apply_update s m.me_market_update
  require (m.seq_num == s1.last_seq_num + 1) assert_failed
  ok (record s1 { last_seq_num = m.seq_num })

-- The updates of a list in turn.
unfoldable pub add_snapshots :
    SnapshotSynthetizer → List MdpMarketUpdate → Result SnapshotSynthetizer
unfolding add_snapshot
add_snapshots s [] = ok s
add_snapshots s (m ∷ ms) = add_snapshot s m >>= λ s1. add_snapshots s1 ms

-- Messages with the numbers from `n` on.
unfoldable pub number_from : ℕ → List MeMarketUpdate → List MdpMarketUpdate
number_from n [] = []
number_from n (u ∷ us) = record { seq_num = n; me_market_update = u } ∷ number_from (n + 1) us

-- `for (const auto order : orders) if (order) ...`, over the `n` slots from `i` on.
unfoldable pub live_orders : SnapshotSynthetizer → ℕ → ℕ → ℕ → List MeMarketUpdate
live_orders s t zero i = []
live_orders s t (suc n) i =
    let rest = live_orders s t n (suc i) in
    elim (s.ticker_order_to_update t i) [ none ↦ rest | some p ↦ read s.update_pool p ∷ rest ]

abbrev pub clear_update : ℕ → MeMarketUpdate
clear_update t = record blank_update { type = MarketUpdateType.clear; ticker_id = t }

-- The `n` instruments from `t` on, each with `slots` orders: a CLEAR, then the live orders.
unfoldable pub ticker_snapshots : SnapshotSynthetizer → ℕ → ℕ → ℕ → List MeMarketUpdate
unfolding live_orders
ticker_snapshots s slots zero t = []
ticker_snapshots s slots (suc n) t =
    clear_update t ∷ live_orders s t slots 0 ++ ticker_snapshots s slots n (suc t)

abbrev pub marker : MarketUpdateType → ℕ → MeMarketUpdate
marker t last = record blank_update { type = t; order_id = last }

-- What `publishSnapShot` sends, for tables of `tickers` instruments with `slots` orders each.
unfoldable pub snapshot_sized : ℕ → ℕ → SnapshotSynthetizer → List MdpMarketUpdate
unfolding ticker_snapshots number_from
snapshot_sized tickers slots s = number_from 0 (
    marker MarketUpdateType.snapshot_start s.last_seq_num
    ∷ (ticker_snapshots s slots tickers 0
        ++ (marker MarketUpdateType.snapshot_end s.last_seq_num ∷ [])))

unfoldable pub publish_snapshot : SnapshotSynthetizer → List MdpMarketUpdate
unfolding snapshot_sized
publish_snapshot s = snapshot_sized me_max_tickers me_max_order_ids s
