-- ===== src/Exchange/SnapshotSynthetizer/Orders.antt =====
-- The slots and the pool of the synthetizer hold a map from instrument and order number to the last
-- update about that order.
use trading_system.Prelude.{
  ℕ, ◌<◌, ◌≡◌, ◌≢◌, refl, ◌⊎◌, inl, inr, false, ◌&&◌, Option, none, some, arith, ◌==◌,
  if◌then◌else◌, update, Bool-cases,
}
use trading_system.Messages.{MeMarketUpdate}
use trading_system.MemPool.{ObjectBlock}
use trading_system.MemPool.Laws.{live, Allocated, allocate-ok, Deallocated, deallocate-Deallocated}
use trading_system.MemPool.Laws
use trading_system.Exchange.SnapshotSynthetizer.{SnapshotSynthetizer, set_slot}

-- What the pool holds behind a pointer.
abbrev pub target : (ℕ → ObjectBlock MeMarketUpdate) → Option ℕ → Option MeMarketUpdate
target cells none = none
target cells (some p) = some (cells p).object

-- The live order of instrument `t` with number `i`.
abbrev pub order : SnapshotSynthetizer → ℕ → ℕ → Option MeMarketUpdate
order s t i = target s.update_pool.cells (s.ticker_order_to_update t i)

-- Each pointer leads to a cell in use, and no two lead to the same one.
pub record IsValid (s : SnapshotSynthetizer) : Type 0 where
  pub pool : Laws.IsValid s.update_pool
  pub in_range : (t i p : ℕ) → s.ticker_order_to_update t i ≡ some p → p < s.update_pool.size
  pub in_use :
      (t i p : ℕ) → s.ticker_order_to_update t i ≡ some p → (s.update_pool.cells p).is_free ≡ false
  pub apart :
      (t i t' i' p : ℕ)
      → s.ticker_order_to_update t i ≡ some p
      → s.ticker_order_to_update t' i' ≡ some p
      → (t ≡ t') × (i ≡ i')

-- The order of instrument `t` with number `i` is `v` now.
abbrev pub Replaced :
    SnapshotSynthetizer → ℕ → ℕ → Option MeMarketUpdate → SnapshotSynthetizer → Type 0
Replaced s t i v s' =
    (t' i' : ℕ) → order s' t' i' ≡ (if t' == t && i' == i then v else order s t' i')

slot_at :
    (s : SnapshotSynthetizer) (t i : ℕ) (v : Option ℕ) (t' i' : ℕ)
    → (set_slot s t i v).ticker_order_to_update t' i'
      ≡ (if t' == t && i' == i then v else s.ticker_order_to_update t' i')
slot_at s t i v t' i' = ground arith

pub target_other :
    (cells : ℕ → ObjectBlock MeMarketUpdate) (o : Option ℕ) (p : ℕ) (b : ObjectBlock MeMarketUpdate)
    → ((q : ℕ) → o ≡ some q → q ≢ p)
    → target (update cells p b) o ≡ target cells o
target_other cells none p b h = refl
target_other cells (some q) p b h = ground (arith, h q refl)

-- A pointer found after a slot is set is the new one, or was there before.
pub slot-cases :
    (s : SnapshotSynthetizer) (t i : ℕ) (v : Option ℕ) (t' i' p : ℕ)
    → (set_slot s t i v).ticker_order_to_update t' i' ≡ some p
    → ((t' ≡ t) × (i' ≡ i) × (v ≡ some p)) ⊎ (s.ticker_order_to_update t' i' ≡ some p)
slot-cases s t i v t' i' p e = ground (arith, e)

pub order-set_slot :
    (s : SnapshotSynthetizer) (t i : ℕ) (v : Option ℕ) (t' i' : ℕ)
    → order (set_slot s t i v) t' i'
      ≡ (if t' == t && i' == i then target s.update_pool.cells v else order s t' i')
order-set_slot s t i v t' i' = elim (Bool-cases (t' == t && i' == i)) [
  | inl e ↦ rw (slot_at s t i v t' i', e) refl
  | inr e ↦ rw (slot_at s t i v t' i', e) refl
]

pub some-injective {ℓ} : {A : Type ℓ} {a b : A} → some a ≡ some b → a ≡ b
some-injective e = cc

pub none-slot :
    (cells : ℕ → ObjectBlock MeMarketUpdate) (o : Option ℕ) → target cells o ≡ none → o ≡ none
none-slot cells none e = refl
none-slot cells (some p) e = cc

pub some-slot :
    (cells : ℕ → ObjectBlock MeMarketUpdate) (o : Option ℕ) (v : MeMarketUpdate)
    → target cells o ≡ some v
    → (p : ℕ) × (o ≡ some p) × ((cells p).object ≡ v)
some-slot cells none v e = cc
some-slot cells (some p) v e = (p, refl, some-injective e)
