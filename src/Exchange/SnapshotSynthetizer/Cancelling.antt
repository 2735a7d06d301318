-- ===== src/Exchange/SnapshotSynthetizer/Cancelling.antt =====
-- The CANCEL branch of addSnapShot, on the map of live orders.
use trading_system.Prelude.{
  ℕ, ◌<◌, ◌≡◌, ◌≢◌, refl, sym, ap, ◌∙◌, inl, inr, true, ◌&&◌, Option, none, some, ok, arith, ltb,
  lt→ltb, ◌==◌, if◌then◌else◌,
}
use trading_system.Types.{me_max_order_ids, same_side}
use trading_system.Messages.{MeMarketUpdate}
use trading_system.MemPool.{ObjectBlock, MemPool, read}
use trading_system.MemPool.Laws.{Deallocated, deallocate-Deallocated}
use trading_system.Exchange.SnapshotSynthetizer.{SnapshotSynthetizer, on_cancel, existing, set_slot}
use trading_system.Exchange.SnapshotSynthetizer.Orders.{
  target, order, IsValid, Replaced, slot-cases, order-set_slot, some-slot,
}

cancelled : SnapshotSynthetizer → MeMarketUpdate → MemPool MeMarketUpdate → SnapshotSynthetizer
cancelled s u q = set_slot (record s { update_pool = q }) u.ticker_id u.order_id none

cancelled-IsValid :
    (s : SnapshotSynthetizer) (u : MeMarketUpdate) (p : ℕ) (q : MemPool MeMarketUpdate)
    → IsValid s
    → s.ticker_order_to_update u.ticker_id u.order_id ≡ some p
    → Deallocated s.update_pool p q
    → IsValid (cancelled s u q)
unfolding cancelled
cancelled-IsValid s u p q w at d = record {
  pool = d.still_valid w.pool;
  in_range = λ t i k e. rw d.same_size (w.in_range t i k (kept t i k e));
  in_use = λ t i k e. d.others k (other t i k e) ∙ w.in_use t i k (kept t i k e);
  apart = λ t i t' i' k e e'. w.apart t i t' i' k (kept t i k e) (kept t' i' k e');
}
  where
    kept :
        (t i k : ℕ)
        → (cancelled s u q).ticker_order_to_update t i ≡ some k
        → s.ticker_order_to_update t i ≡ some k
    kept t i k e =
        elim (slot-cases (record s { update_pool = q }) u.ticker_id u.order_id none t i k e) [
          | inl (_, _, new) ↦ cc
          | inr old ↦ old
        ]

    cleared :
        (t i : ℕ)
        → t ≡ u.ticker_id
        → i ≡ u.order_id
        → (k : ℕ) → (cancelled s u q).ticker_order_to_update t i ≡ some k
        → ⊥
    cleared t i et ei k e = ground (arith, et, ei, e)

    other : (t i k : ℕ) → (cancelled s u q).ticker_order_to_update t i ≡ some k → k ≢ p
    other t i k e same =
        let (et, ei) =
          w.apart t i u.ticker_id u.order_id k (kept t i k e) (at ∙ ap some (sym same)) in
        cleared t i et ei k e

target_same :
    (f g : ℕ → ObjectBlock MeMarketUpdate) (o : Option ℕ)
    → ((j : ℕ) → (f j).object ≡ (g j).object)
    → target f o ≡ target g o
target_same f g none h = refl
target_same f g (some p) h = ap some (h p)

cancelled-Replaced :
    (s : SnapshotSynthetizer) (u : MeMarketUpdate) (p : ℕ) (q : MemPool MeMarketUpdate)
    → Deallocated s.update_pool p q
    → Replaced s u.ticker_id u.order_id none (cancelled s u q)
unfolding cancelled
cancelled-Replaced s u p q d t' i' =
    order-set_slot (record s { update_pool = q }) u.ticker_id u.order_id none t' i'
    ∙ ap (λ y. if t' == u.ticker_id && i' == u.order_id then none else y)
        (target_same q.cells s.update_pool.cells (s.ticker_order_to_update t' i') d.same_objects)

-- A CANCEL of a live order whose stored update carries its number and side returns: the synthetizer
-- stays valid, holds no order under that number, and all other orders as they were.
pub on_cancel-Replaced :
    (s : SnapshotSynthetizer) (u v : MeMarketUpdate)
    → IsValid s
    → u.order_id < me_max_order_ids
    → order s u.ticker_id u.order_id ≡ some v
    → v.order_id ≡ u.order_id
    → same_side v.side u.side ≡ true
    → (s' : SnapshotSynthetizer) × (on_cancel s u ≡ ok s')
      × IsValid s'
      × Replaced s u.ticker_id u.order_id none s'
unfolding on_cancel existing cancelled
on_cancel-Replaced s u v w within live_one number side =
    let (p, at, held) =
      some-slot s.update_pool.cells (s.ticker_order_to_update u.ticker_id u.order_id) v live_one in
    let (q, e, d) =
      deallocate-Deallocated s.update_pool p (w.in_range u.ticker_id u.order_id p at)
        (w.in_use u.ticker_id u.order_id p at) in
    let inside : ltb u.order_id me_max_order_ids ≡ true =
      lt→ltb u.order_id me_max_order_ids within in
    let same_number : ((read s.update_pool p).order_id == u.order_id) ≡ true =
      rw held (ground (arith, number)) in
    let same_kind : same_side (read s.update_pool p).side u.side ≡ true = rw held side in
    (
      cancelled s u q,
      rw (inside, at, same_number, same_kind, e, on_cancel, existing) refl,
      cancelled-IsValid s u p q w at d,
      cancelled-Replaced s u p q d,
    )
