-- ===== src/Exchange/SnapshotSynthetizer/Tests.antt =====
-- A synthetizer with one live order.
use mathlib.Core.Path.{◌≡◌, refl}
use trading_system.Prelude.{ℕ, zero, suc, ◌<◌, true, false, none, some, ok, arith}
use trading_system.Types.{buy}
use trading_system.Messages.{MarketUpdateType, MeMarketUpdate, blank_update}
use trading_system.MemPool.Laws.{live}
use trading_system.Exchange.SnapshotSynthetizer.{SnapshotSynthetizer, on_add, on_modify, on_cancel}
use trading_system.Exchange.SnapshotSynthetizer.Orders.{IsValid, Replaced}
use trading_system.Exchange.SnapshotSynthetizer.Adding.{on_add-Replaced}
use trading_system.Exchange.SnapshotSynthetizer.Cancelling.{on_cancel-Replaced}
use trading_system.Exchange.SnapshotSynthetizer.Modifying.{amended, on_modify-Replaced}

abbrev bid : MeMarketUpdate
bid = record blank_update {
  type = MarketUpdateType.add;
  order_id = 1;
  ticker_id = 0;
  side = buy;
  price = 100;
  qty = 10;
}

abbrev larger : MeMarketUpdate
larger = record bid { qty = 20 }

-- No orders.
abbrev fresh_one : SnapshotSynthetizer
fresh_one = record {
  ticker_order_to_update = λ _ _. none;
  last_seq_num = 0;
  update_pool = record {
    cells = λ _. record { object = blank_update; is_free = true };
    size = 4;
    next_free_index = 0;
  };
}

fresh_one-IsValid : IsValid fresh_one
fresh_one-IsValid = record {
  pool = record { in_range = omega arith; next_is_free = refl };
  in_range = λ t i p e. cc;
  in_use = λ t i p e. cc;
  apart = λ t i t' i' p e e'. cc;
}

-- The bid alone, in the first cell.
abbrev with_bid : SnapshotSynthetizer
with_bid = record {
  ticker_order_to_update = λ t i. elim t [
    | suc _ ↦ none
    | zero ↦ (elim i [ zero ↦ none | suc j ↦ (elim j [ zero ↦ some 0 | suc _ ↦ none ]) ])
  ];
  last_seq_num = 1;
  update_pool = record {
    cells = λ j. elim j [
      | zero ↦ record { object = bid; is_free = false }
      | suc _ ↦ record { object = blank_update; is_free = true }
    ];
    size = 4;
    next_free_index = 1;
  };
}

with_bid-IsValid : IsValid with_bid
with_bid-IsValid = record {
  pool = record { in_range = omega arith; next_is_free = refl };
  in_range = in_range;
  in_use = in_use;
  apart = apart;
}
  where
    in_range : (t i p : ℕ) → with_bid.ticker_order_to_update t i ≡ some p → p < 4
    in_range zero zero p e = cc
    in_range zero (suc zero) zero e = omega arith
    in_range zero (suc zero) (suc p) e = cc
    in_range zero (suc (suc i)) p e = cc
    in_range (suc t) i p e = cc

    in_use :
        (t i p : ℕ)
        → with_bid.ticker_order_to_update t i ≡ some p
        → (with_bid.update_pool.cells p).is_free ≡ false
    in_use zero zero p e = cc
    in_use zero (suc zero) zero e = refl
    in_use zero (suc zero) (suc p) e = cc
    in_use zero (suc (suc i)) p e = cc
    in_use (suc t) i p e = cc

    apart :
        (t i t' i' p : ℕ)
        → with_bid.ticker_order_to_update t i ≡ some p
        → with_bid.ticker_order_to_update t' i' ≡ some p
        → (t ≡ t') × (i ≡ i')
    apart zero (suc zero) zero (suc zero) p e e' = (refl, refl)
    apart zero zero t' i' p e e' = cc
    apart zero (suc (suc i)) t' i' p e e' = cc
    apart (suc t) i t' i' p e e' = cc
    apart zero (suc zero) zero zero p e e' = cc
    apart zero (suc zero) zero (suc (suc i')) p e e' = cc
    apart zero (suc zero) (suc t') i' p e e' = cc

on_add-Replaced_example :
    (s' : SnapshotSynthetizer) × (on_add fresh_one bid ≡ ok s')
    × IsValid s'
    × Replaced fresh_one 0 1 (some bid) s'
unfolding live
on_add-Replaced_example =
    on_add-Replaced fresh_one bid fresh_one-IsValid (omega arith) refl (omega arith)

on_modify-Replaced_example :
    (s' : SnapshotSynthetizer) × (on_modify with_bid larger ≡ ok s')
    × IsValid s'
    × Replaced with_bid 0 1 (some (amended bid larger)) s'
on_modify-Replaced_example =
    on_modify-Replaced with_bid larger bid with_bid-IsValid (omega arith) refl refl refl

on_cancel-Replaced_example :
    (s' : SnapshotSynthetizer) × (on_cancel with_bid bid ≡ ok s')
    × IsValid s'
    × Replaced with_bid 0 1 none s'
on_cancel-Replaced_example =
    on_cancel-Replaced with_bid bid bid with_bid-IsValid (omega arith) refl refl refl
