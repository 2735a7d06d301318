-- ===== src/Client/MarketDataConsumer/Gap.antt =====
-- What happens at a gap in the incremental stream, until the snapshot arrives.
use trading_system.Prelude.{
  ℕ, ◌+◌, ◌<◌, ltb, inl, inr, Bool-cases, ◌≡◌, ◌≢◌, refl, Option, none, some, if◌then◌else◌, sym,
  ap, ◌∙◌, true, false, List, [], ◌∷◌, ◌++◌, arith, ◌==◌, length, length-append,
}
use mathlib.Core.Path.{subst}
use mathlib.Core.List.{append-nil, append_assoc}
use trading_system.Messages.{MeMarketUpdate, MdpMarketUpdate}
use trading_system.Exchange.SnapshotSynthetizer.{number_from}
use trading_system.Client.MarketDataConsumer.{
  MarketDataConsumer, start_snapshot_sync, check_snapshot_sync, queue_message, recv_message,
  recv_loop,
}
use trading_system.Client.MarketDataConsumer.Queue.{
  QueuedMarketUpdate, insert, contains, first_update,
}
use trading_system.Client.MarketDataConsumer.Joining.{entries, insert-entries}

-- The consumer waits for a snapshot and keeps the updates `us`, numbered from `n` on.
abbrev pub waiting : MarketDataConsumer → ℕ → List MeMarketUpdate → MarketDataConsumer
waiting c n us = record c {
  packet_lost = true;
  snapshot_joined = true;
  snapshot_queue = [];
  incremental_queue = entries n us;
}

queue_waiting :
    (c : MarketDataConsumer) (us : List MeMarketUpdate) (u : MeMarketUpdate) (n k : ℕ)
    → k ≡ n + length us
    → queue_message (waiting c n us) false (record { seq_num = k; me_market_update = u })
      ≡ waiting c n (us ++ (u ∷ []))
unfolding queue_message check_snapshot_sync first_update contains
queue_waiting c us u n k e =
    ap (λ q. record (waiting c n []) { incremental_queue = q }) (insert-entries us u n k e)

recv_loop-waiting :
    (rest us : List MeMarketUpdate) (c : MarketDataConsumer) (n k : ℕ)
    → k ≡ n + length us
    → recv_loop (waiting c n us) false (number_from k rest) ≡ waiting c n (us ++ rest)
unfolding recv_loop number_from recv_message
recv_loop-waiting [] us c n k e = ap (λ xs. waiting c n xs) (sym (append-nil us))
recv_loop-waiting (u ∷ rest) us c n k e =
    ap (λ c1. recv_loop c1 false (number_from (k + 1) rest)) (queue_waiting c us u n k e)
    ∙ recv_loop-waiting rest (us ++ (u ∷ [])) c n (k + 1)
        (omega (arith, e, length-append us (u ∷ [])))
    ∙ ap (λ xs. waiting c n xs) (append_assoc us (u ∷ []) rest)

first_gap :
    (c : MarketDataConsumer) (u : MeMarketUpdate) (n : ℕ)
    → c.packet_lost ≡ false
    → n ≢ c.exp_seq_num
    → recv_message c false (record { seq_num = n; me_market_update = u }) ≡ waiting c n (u ∷ [])
unfolding recv_message start_snapshot_sync
first_gap c u n fine ahead =
    let other : (n == c.exp_seq_num) ≡ false = ground (arith, ahead) in
    rw (fine, other, recv_message, start_snapshot_sync) (queue_waiting c [] u n n (omega arith))

-- Messages numbered without a further gap are kept as they are.
pub gap-waiting :
    (c : MarketDataConsumer) (u : MeMarketUpdate) (us : List MeMarketUpdate) (n : ℕ)
    → c.packet_lost ≡ false
    → n ≢ c.exp_seq_num
    → recv_loop c false (number_from n (u ∷ us)) ≡ waiting c n (u ∷ us)
unfolding recv_loop number_from
gap-waiting c u us n fine ahead =
    ap (λ c1. recv_loop c1 false (number_from (n + 1) us)) (first_gap c u n fine ahead)
    ∙ recv_loop-waiting us (u ∷ []) c n (n + 1) (omega arith)

-- What is kept under number `k`.
abbrev pub kept_at : ℕ → QueuedMarketUpdate → Option MeMarketUpdate
kept_at k [] = none
kept_at k ((n, u) ∷ q) = if k == n then some u else kept_at k q

-- The last of the messages `ms` with number `k`, and `before` if there is none.
abbrev pub last_at : ℕ → Option MeMarketUpdate → List MdpMarketUpdate → Option MeMarketUpdate
last_at k before [] = before
last_at k before (m ∷ ms) =
    last_at k (if k == m.seq_num then some m.me_market_update else before) ms

insert-kept_at :
    (k n : ℕ) (u : MeMarketUpdate) (q : QueuedMarketUpdate)
    → kept_at k (insert n u q) ≡ (if k == n then some u else kept_at k q)
unfolding insert
insert-kept_at k n u [] = refl
insert-kept_at k n u ((m, v) ∷ q) = ground (arith, insert-kept_at k n u q)

-- The numbers rise.
abbrev Above : ℕ → QueuedMarketUpdate → Type 0
Above n [] = Unit {0}
Above n ((m, u) ∷ q) = (n < m) × Above n q

abbrev pub Rises : QueuedMarketUpdate → Type 0
Rises [] = Unit {0}
Rises ((n, u) ∷ q) = Above n q × Rises q

Above-trans : (a n : ℕ) (q : QueuedMarketUpdate) → a < n → Above n q → Above a q
Above-trans a n [] h w = tt
Above-trans a n ((m, v) ∷ q) h (l, w) = (omega arith, Above-trans a n q h w)

insert-Above :
    (a n : ℕ) (u : MeMarketUpdate) (q : QueuedMarketUpdate)
    → a < n
    → Above a q
    → Above a (insert n u q)
unfolding insert
insert-Above a n u [] h w = (h, tt)
insert-Above a n u ((m, v) ∷ q) h (l, w) = elim (Bool-cases (ltb n m)) [
  | inl e ↦ rw e (h, (l, w))
  | inr e ↦ elim (Bool-cases (n == m)) [
    | inl f ↦ rw (e, f) (h, w)
    | inr f ↦ rw (e, f) (l, insert-Above a n u q h w)
  ]
]

insert-Rises :
    (n : ℕ) (u : MeMarketUpdate) (q : QueuedMarketUpdate) → Rises q → Rises (insert n u q)
unfolding insert
insert-Rises n u [] w = (tt, tt)
insert-Rises n u ((m, v) ∷ q) (a, w) = elim (Bool-cases (ltb n m)) [
  | inl e ↦ rw e ((ground (arith, e), Above-trans n m q (ground (arith, e)) a), (a, w))
  | inr e ↦ elim (Bool-cases (n == m)) [
    | inl f ↦ let same : m ≡ n = ground arith in rw (e, f) (subst (λ k. Above k q) same a, w)
    | inr f ↦ rw (e, f) (insert-Above m n u q (ground (arith, e, f)) a, insert-Rises n u q w)
  ]
]

-- The consumer waits for a snapshot with the incremental messages `q`.
abbrev pub keeping : MarketDataConsumer → QueuedMarketUpdate → MarketDataConsumer
keeping c q = record c {
  packet_lost = true;
  snapshot_joined = true;
  snapshot_queue = [];
  incremental_queue = q;
}

queue_keeping :
    (c : MarketDataConsumer) (q : QueuedMarketUpdate) (m : MdpMarketUpdate)
    → queue_message (keeping c q) false m ≡ keeping c (insert m.seq_num m.me_market_update q)
unfolding queue_message check_snapshot_sync first_update contains
queue_keeping c q m = refl

recv_loop-keeping :
    (ms : List MdpMarketUpdate) (c : MarketDataConsumer) (q : QueuedMarketUpdate)
    → Rises q
    → (p : QueuedMarketUpdate) × (recv_loop (keeping c q) false ms ≡ keeping c p)
      × Rises p
      × ((k : ℕ) → kept_at k p ≡ last_at k (kept_at k q) ms)
unfolding recv_loop recv_message
recv_loop-keeping [] c q w = (q, refl, w, λ k. refl)
recv_loop-keeping (m ∷ ms) c q w =
    let (p, e, r, f) =
      recv_loop-keeping ms c (insert m.seq_num m.me_market_update q)
        (insert-Rises m.seq_num m.me_market_update q w) in
    (
      p,
      ap (λ d. recv_loop d false ms) (queue_keeping c q m) ∙ e,
      r,
      λ k. f k ∙ ap (λ o. last_at k o ms) (insert-kept_at k m.seq_num m.me_market_update q),
    )

-- A consumer in step that finds another number than the expected one goes into recovery: it joins
-- the snapshot stream with an empty snapshot queue, forwards nothing, and forgets what it kept before.
-- Of that message and of any later ones of the incremental stream, whatever their numbers, it keeps
-- under each number the last message that has it, and nothing else, by rising numbers.
pub gap-Kept :
    (c : MarketDataConsumer) (m : MdpMarketUpdate) (ms : List MdpMarketUpdate)
    → c.packet_lost ≡ false
    → m.seq_num ≢ c.exp_seq_num
    → (p : QueuedMarketUpdate) × (recv_loop c false (m ∷ ms) ≡ keeping c p)
      × Rises p
      × ((k : ℕ) → kept_at k p ≡ last_at k none (m ∷ ms))
unfolding recv_loop recv_message start_snapshot_sync
gap-Kept c m ms fine ahead =
    let other : (m.seq_num == c.exp_seq_num) ≡ false = ground (arith, ahead) in
    let first : recv_message c false m ≡ keeping c (insert m.seq_num m.me_market_update []) =
      rw (fine, other, recv_message, start_snapshot_sync) (queue_keeping c [] m) in
    let (p, e, r, f) =
      recv_loop-keeping ms c (insert m.seq_num m.me_market_update [])
        (insert-Rises m.seq_num m.me_market_update [] tt) in
    (
      p,
      ap (λ d. recv_loop d false ms) first ∙ e,
      r,
      λ k. f k ∙ ap (λ o. last_at k o ms) (insert-kept_at k m.seq_num m.me_market_update []),
    )
