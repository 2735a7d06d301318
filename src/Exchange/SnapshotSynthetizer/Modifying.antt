-- ===== src/Exchange/SnapshotSynthetizer/Modifying.antt =====
-- The MODIFY branch of addSnapShot, on the map of live orders.
use trading_system.Prelude.{
  ℕ, ◌<◌, ◌≡◌, refl, sym, ap, ◌∙◌, inl, inr, true, false, ◌&&◌, some, ok, arith, ltb, lt→ltb, ◌==◌,
  Bool-cases,
}
use mathlib.Core.Path.{ap₂}
use trading_system.Types.{me_max_order_ids, same_side}
use trading_system.Messages.{MeMarketUpdate}
use trading_system.MemPool.{MemPool, read, write}
use trading_system.Exchange.SnapshotSynthetizer.{SnapshotSynthetizer, on_modify, existing}
use trading_system.Exchange.SnapshotSynthetizer.Orders.{
  target, order, IsValid, Replaced, target_other, some-slot,
}

-- The stored update with the price and quantity of `u`.
abbrev pub amended : MeMarketUpdate → MeMarketUpdate → MeMarketUpdate
amended v u = record v { price = u.price; qty = u.qty }

modified : SnapshotSynthetizer → MeMarketUpdate → ℕ → SnapshotSynthetizer
modified s u p = record s { update_pool = write s.update_pool p (amended (read s.update_pool p) u) }

marks_kept :
    (m : MemPool MeMarketUpdate) (p : ℕ) (v : MeMarketUpdate) (j : ℕ)
    → ((write m p v).cells j).is_free ≡ (m.cells j).is_free
marks_kept m p v j = ground arith

modified-IsValid :
    (s : SnapshotSynthetizer) (u : MeMarketUpdate) (p : ℕ) → IsValid s → IsValid (modified s u p)
unfolding modified
modified-IsValid s u p w = record {
  pool = record {
    in_range = w.pool.in_range;
    next_is_free =
        marks_kept s.update_pool p (amended (read s.update_pool p) u) s.update_pool.next_free_index
        ∙ w.pool.next_is_free;
  };
  in_range = w.in_range;
  in_use =
      λ t i k e. marks_kept s.update_pool p (amended (read s.update_pool p) u) k ∙ w.in_use t i k e;
  apart = w.apart;
}

tests-equal : (a b c d : ℕ) → (a == b && c == d) ≡ true → (a ≡ b) × (c ≡ d)
tests-equal a b c d e = ground arith

tests-apart : (a b c d : ℕ) → (a == b && c == d) ≡ false → a ≡ b → c ≡ d → ⊥
tests-apart a b c d e x y = ground arith

modified-Replaced :
    (s : SnapshotSynthetizer) (u v : MeMarketUpdate) (p : ℕ)
    → IsValid s
    → s.ticker_order_to_update u.ticker_id u.order_id ≡ some p
    → read s.update_pool p ≡ v
    → Replaced s u.ticker_id u.order_id (some (amended v u)) (modified s u p)
unfolding modified
modified-Replaced s u v p w at held t' i' =
    elim (Bool-cases (t' == u.ticker_id && i' == u.order_id)) [
      | inl e ↦
          let (et, ei) = tests-equal t' u.ticker_id i' u.order_id e in
          rw e (ap₂ (λ t i. order (modified s u p) t i) et ei ∙ here)
      | inr e ↦ rw e (
          target_other s.update_pool.cells (s.ticker_order_to_update t' i') p _ λ q old same.
            let (et, ei) = w.apart t' i' u.ticker_id u.order_id q old (at ∙ ap some (sym same)) in
            tests-apart t' u.ticker_id i' u.order_id e et ei)
    ]
  where
    here : order (modified s u p) u.ticker_id u.order_id ≡ some (amended v u)
    here =
        ap (target (modified s u p).update_pool.cells) at
        ∙ ap some (ground arith ∙ ap (λ x. amended x u) held)

-- A MODIFY of a live order whose stored update carries its number and side returns: the synthetizer
-- stays valid, holds that update with the new price and quantity, and all other orders as they were.
pub on_modify-Replaced :
    (s : SnapshotSynthetizer) (u v : MeMarketUpdate)
    → IsValid s
    → u.order_id < me_max_order_ids
    → order s u.ticker_id u.order_id ≡ some v
    → v.order_id ≡ u.order_id
    → same_side v.side u.side ≡ true
    → (s' : SnapshotSynthetizer) × (on_modify s u ≡ ok s')
      × IsValid s'
      × Replaced s u.ticker_id u.order_id (some (amended v u)) s'
unfolding on_modify existing modified
on_modify-Replaced s u v w within live_one number side =
    let (p, at, held) =
      some-slot s.update_pool.cells (s.ticker_order_to_update u.ticker_id u.order_id) v live_one in
    let inside : ltb u.order_id me_max_order_ids ≡ true =
      lt→ltb u.order_id me_max_order_ids within in
    let same_number : ((read s.update_pool p).order_id == u.order_id) ≡ true =
      rw held (ground (arith, number)) in
    let same_kind : same_side (read s.update_pool p).side u.side ≡ true = rw held side in
    (
      modified s u p,
      rw (inside, at, same_number, same_kind, on_modify, existing) refl,
      modified-IsValid s u p w,
      modified-Replaced s u v p w at held,
    )
