-- ===== src/Exchange/SnapshotSynthetizer/Adding.antt =====
-- The ADD branch of addSnapShot, on the map of live orders.
use trading_system.Prelude.{
  ℕ, ◌+◌, ◌≤◌, ◌<◌, ◌≡◌, ◌≢◌, refl, sym, ◌∙◌, ◌⊎◌, inl, inr, true, false, ◌&&◌, none, some, ok,
  arith, ltb, lt→ltb, ◌==◌, if◌then◌else◌,
}
use mathlib.Core.Path.{ap₂}
use trading_system.Types.{me_max_order_ids}
use trading_system.Messages.{MeMarketUpdate}
use trading_system.MemPool.{MemPool}
use trading_system.MemPool.Laws.{live, Allocated, allocate-ok}
use trading_system.Exchange.SnapshotSynthetizer.{SnapshotSynthetizer, on_add, set_slot}
use trading_system.Exchange.SnapshotSynthetizer.Orders.{
  order, IsValid, Replaced, slot-cases, order-set_slot, target_other, none-slot, some-injective,
}

-- The cell that `allocate` hands out has no pointer to it yet.
fresh :
    (s : SnapshotSynthetizer) (t i p : ℕ)
    → IsValid s
    → s.ticker_order_to_update t i ≡ some p
    → p ≢ s.update_pool.next_free_index
fresh s t i p w e same = let taken = w.in_use t i p e in let free = w.pool.next_is_free in cc

added : SnapshotSynthetizer → MeMarketUpdate → MemPool MeMarketUpdate → SnapshotSynthetizer
added s u q =
    set_slot (record s { update_pool = q }) u.ticker_id u.order_id
      (some s.update_pool.next_free_index)

added-IsValid :
    (s : SnapshotSynthetizer) (u : MeMarketUpdate) (q : MemPool MeMarketUpdate)
    → IsValid s
    → Allocated s.update_pool u s.update_pool.next_free_index q
    → IsValid (added s u q)
unfolding added
added-IsValid s u q w a = record {
  pool = a.still_valid;
  in_range = λ t i p e. elim (cases t i p e) [
    | inl (_, _, new) ↦ rw (a.same_size, ← some-injective new) w.pool.in_range
    | inr old ↦ rw a.same_size (w.in_range t i p old)
  ];
  in_use = λ t i p e. elim (cases t i p e) [
    | inl (_, _, new) ↦ rw a.cells_after (ground (arith, some-injective new))
    | inr old ↦ rw a.cells_after (ground (arith, w.in_use t i p old))
  ];
  apart = λ t i t' i' p e e'. elim (cases t i p e) [
    | inl (et, ei, new) ↦ elim (cases t' i' p e') [
      | inl (et', ei', _) ↦ (et ∙ sym et', ei ∙ sym ei')
      | inr old ↦ absurd (fresh s t' i' p w old (sym (some-injective new)))
    ]
    | inr old ↦ elim (cases t' i' p e') [
      | inl (_, _, new) ↦ absurd (fresh s t i p w old (sym (some-injective new)))
      | inr old' ↦ w.apart t i t' i' p old old'
    ]
  ];
}
  where
    cases :
        (t i p : ℕ)
        → (added s u q).ticker_order_to_update t i ≡ some p
        → ((t ≡ u.ticker_id) × (i ≡ u.order_id) × (some s.update_pool.next_free_index ≡ some p))
          ⊎ (s.ticker_order_to_update t i ≡ some p)
    cases t i p e =
        slot-cases (record s { update_pool = q }) u.ticker_id u.order_id
          (some s.update_pool.next_free_index) t i p e

added-Replaced :
    (s : SnapshotSynthetizer) (u : MeMarketUpdate) (q : MemPool MeMarketUpdate)
    → IsValid s
    → Allocated s.update_pool u s.update_pool.next_free_index q
    → Replaced s u.ticker_id u.order_id (some u) (added s u q)
unfolding added
added-Replaced s u q w a t' i' =
    order-set_slot (record s { update_pool = q }) u.ticker_id u.order_id
      (some s.update_pool.next_free_index) t' i'
    ∙ ap₂ (λ x y. if t' == u.ticker_id && i' == u.order_id then x else y)
        (rw a.cells_after (ground arith))
        (rw a.cells_after (
          target_other s.update_pool.cells (s.ticker_order_to_update t' i')
            s.update_pool.next_free_index (record { object = u; is_free = false })
            (λ p e. fresh s t' i' p w e)))

-- An ADD of a number within the table that names no live order returns if two cells are free: the
-- synthetizer stays valid, holds the update under that number, and all other orders as they were.
pub on_add-Replaced :
    (s : SnapshotSynthetizer) (u : MeMarketUpdate)
    → IsValid s
    → u.order_id < me_max_order_ids
    → order s u.ticker_id u.order_id ≡ none
    → live s.update_pool + 2 ≤ s.update_pool.size
    → (s' : SnapshotSynthetizer) × (on_add s u ≡ ok s')
      × IsValid s'
      × Replaced s u.ticker_id u.order_id (some u) s'
unfolding on_add added
on_add-Replaced s u w within free room =
    let (q, e, a) = allocate-ok s.update_pool u w.pool room in
    let inside : ltb u.order_id me_max_order_ids ≡ true =
      lt→ltb u.order_id me_max_order_ids within in
    let empty : s.ticker_order_to_update u.ticker_id u.order_id ≡ none =
      none-slot s.update_pool.cells (s.ticker_order_to_update u.ticker_id u.order_id) free in
    (
      added s u q,
      rw (inside, empty, e, on_add) refl,
      added-IsValid s u q w a,
      added-Replaced s u q w a,
    )
