-- ===== src/Client/MarketDataConsumer/Joining.antt =====
-- The two loops of `checkSnapshotSync` on queues without gaps.
use trading_system.Prelude.{
  ℕ, zero, suc, ◌+◌, ◌-◌, ◌≤◌, ◌≡◌, ◌⊎◌, inl, inr, refl, sym, ap, ◌∙◌, false, List, [], ◌∷◌, ◌++◌,
  some, arith, length, drop,
}
use mathlib.Core.Path.{ap₂}
use trading_system.Messages.{MeMarketUpdate}
use trading_system.Client.MarketDataConsumer.{join_snapshot, join_incremental, keep_update}
use trading_system.Client.MarketDataConsumer.Queue.{
  QueuedMarketUpdate, insert, contains, last_update,
}

-- The updates `us` under the numbers from `n` on.
abbrev pub entries : ℕ → List MeMarketUpdate → QueuedMarketUpdate
entries n [] = []
entries n (u ∷ us) = (n, u) ∷ entries (n + 1) us

-- The updates other than snapshot markers.
abbrev pub forwardable : List MeMarketUpdate → List MeMarketUpdate
forwardable [] = []
forwardable (u ∷ us) = keep_update u (forwardable us)

pub insert-entries :
    (us : List MeMarketUpdate) (u : MeMarketUpdate) (n k : ℕ)
    → k ≡ n + length us
    → insert k u (entries n us) ≡ entries n (us ++ (u ∷ []))
unfolding insert
insert-entries [] u n k e = ap (λ i. (i, u) ∷ []) (omega (arith, e))
insert-entries (v ∷ us) u n k e = ground (arith, insert-entries us u (n + 1) k (omega (arith, e)))

pub contains-entries :
    (us : List MeMarketUpdate) (n k : ℕ) → n + length us ≤ k → contains k (entries n us) ≡ false
unfolding contains
contains-entries [] n k e = refl
contains-entries (v ∷ us) n k e = ground (arith, contains-entries us (n + 1) k (omega (arith, e)))

pub join_snapshot-entries :
    (us : List MeMarketUpdate) (n : ℕ) → join_snapshot n (entries n us) ≡ some (forwardable us)
unfolding join_snapshot
join_snapshot-entries [] n = refl
join_snapshot-entries (u ∷ us) n = ground (arith, join_snapshot-entries us (n + 1))

pub last_update-entries :
    (us : List MeMarketUpdate) (u : MeMarketUpdate) (n : ℕ)
    → last_update (entries n (us ++ (u ∷ []))) ≡ some u
unfolding last_update
last_update-entries [] u n = refl
last_update-entries (v ∷ []) u n = refl
last_update-entries (v ∷ w ∷ us) u n = last_update-entries (w ∷ us) u (n + 1)

drop_nil : (k : ℕ) → drop {A = MeMarketUpdate} k [] ≡ []
drop_nil zero = refl
drop_nil (suc k) = refl

drop_behind :
    (u : MeMarketUpdate) (us : List MeMarketUpdate) (n expected : ℕ)
    → n + 1 ≤ expected
    → drop (expected - n) (u ∷ us) ≡ drop (expected - (n + 1)) us
drop_behind u us n expected h = ap (λ k. drop k (u ∷ us)) one_more
  where
    one_more : expected - n ≡ suc (expected - (n + 1))
    one_more = omega (arith, h)

le-cases : (n k : ℕ) → n ≤ k → (n ≡ k) ⊎ (n + 1 ≤ k)
le-cases n k h = omega arith

join_here :
    (u : MeMarketUpdate) (q : QueuedMarketUpdate) (n m : ℕ) (us : List MeMarketUpdate)
    → join_incremental (n + 1) q ≡ (m, some us)
    → join_incremental n ((n, u) ∷ q) ≡ (m, some (keep_update u us))
unfolding join_incremental
join_here u q n m us e = rw (e, join_incremental) (ground arith)

join_older :
    (u : MeMarketUpdate) (q : QueuedMarketUpdate) (n expected : ℕ)
    → n + 1 ≤ expected
    → join_incremental expected ((n, u) ∷ q) ≡ join_incremental expected q
unfolding join_incremental
join_older u q n expected h = ground arith

-- A queue of consecutive messages that reaches back to the expected number is joined from there on:
-- what is older is skipped, the rest is forwarded in order.
pub join_incremental-entries :
    (us : List MeMarketUpdate) (n expected : ℕ)
    → n ≤ expected
    → expected ≤ n + length us
    → join_incremental expected (entries n us)
      ≡ (n + length us, some (forwardable (drop (expected - n) us)))
unfolding join_incremental
join_incremental-entries [] n expected h k =
    ap₂ (λ i xs. (i, some (forwardable xs))) (omega arith) (sym (drop_nil (expected - n)))
join_incremental-entries (u ∷ us) n expected h k = elim (le-cases n expected h) [
  | inl here ↦
      let none_older : n + 1 - (n + 1) ≡ 0 = omega arith in
      let from_first : 0 ≡ expected - n = omega (arith, here) in
      let later : join_incremental (n + 1) (entries (n + 1) us)
          ≡ (n + 1 + length us, some (forwardable us)) =
        join_incremental-entries us (n + 1) (n + 1) (omega arith) (omega arith)
        ∙ ap (λ i. (n + 1 + length us, some (forwardable (drop i us)))) none_older in
      ap (λ i. join_incremental i (entries n (u ∷ us))) (sym here)
      ∙ join_here u (entries (n + 1) us) n (n + 1 + length us) (forwardable us) later
      ∙ ap₂ (λ i j. (i, some (forwardable (drop j (u ∷ us))))) (omega arith) from_first
  | inr older ↦
      join_older u (entries (n + 1) us) n expected older
      ∙ join_incremental-entries us (n + 1) expected older (omega arith)
      ∙ ap₂ (λ i xs. (i, some (forwardable xs))) (omega arith)
          (sym (drop_behind u us n expected older))
]
