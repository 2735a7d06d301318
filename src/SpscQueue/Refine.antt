-- ===== src/SpscQueue/Refine.antt =====
-- The ring holds a list of messages, oldest first, and its operations act on that list.
use native.Mathlib.Nat.{mod-add-mod, mod-eq_of_lt, add-zero}
use native.Mathlib.Decide.{ℕ_discrete}
use native.Mathlib.Numerals.{add-one}
use mathlib.Core.Path.{ap₂, subst}
use trading_system.Prelude.{
  ℕ, zero, suc, ◌+◌, ◌-◌, ◌%◌, ◌<◌, ◌≤◌, ◌≡◌, ◌≢◌, refl, sym, ap, ◌∙◌, ◌⊎◌, inl, inr, Option, none,
  some, List, [], ◌∷◌, ◌++◌, Result, ok, ◌>>=◌, ◌==◌, if◌then◌else◌, update, arith, length,
}
use trading_system.SpscQueue.Fifo.{Op, put, take}
use trading_system.SpscQueue.Fifo
use trading_system.SpscQueue.{
  take_next, SpscQueue, new_queue, push, get_next_read, update_next_read,
}

-- Fewer steps than the ring is long do not lead back to where they began.
pub elsewhere : (m i n : ℕ) → i < m → n ≢ 0 → n < m → (i + n) % m ≢ i
elsewhere m i n within some_step few = grind arith

pub shift : (m h n : ℕ) → (h + suc n) % m ≡ ((h + 1) % m + n) % m
shift m h n = rw mod-add-mod (ap (λ k. k % m) (omega arith))

pub shift_pred : (m h n : ℕ) → n ≢ 0 → (h + n) % m ≡ ((h + 1) % m + (n - 1)) % m
shift_pred m h zero ne = absurd (ne refl)
shift_pred m h (suc n) ne = shift m h n ∙ ap (λ k. ((h + 1) % m + k) % m) (omega arith)

once_round : (m i : ℕ) → i < m → (i + m) % m ≡ i
once_round m i within = grind arith

size-cases : (n m : ℕ) → n ≤ m → (n ≡ 0) ⊎ (n ≡ m) ⊎ ((k : ℕ) × (n ≡ suc k) × (suc k < m))
size-cases zero m h = inl refl
size-cases (suc k) m h = elim (ℕ_discrete (suc k) m) [
  | yes e ↦ inr (inl e)
  | no ne ↦ inr (inr (k, refl, omega arith))
]

module _ {ℓ} {T : Type ℓ} where
  -- The `n` messages from index `i` on, going round at `cap`.
  abbrev pub window : (ℕ → T) → ℕ → ℕ → ℕ → List T
  window store cap i zero = []
  window store cap i (suc n) = store i ∷ window store cap ((i + 1) % cap) n

  abbrev pub contents : SpscQueue T → List T
  contents q = window q.store q.capacity q.next_read_idx q.num_elements

  pub length-window : (store : ℕ → T) (cap i n : ℕ) → length (window store cap i n) ≡ n
  length-window store cap i zero = refl
  length-window store cap i (suc n) = ap suc (length-window store cap ((i + 1) % cap) n)

  pub record IsValid (q : SpscQueue T) : Type 0 where
    pub read_in : q.next_read_idx < q.capacity
    pub within : q.num_elements ≤ q.capacity
    pub write_at : q.next_write_idx ≡ (q.next_read_idx + q.num_elements) % q.capacity

  update-ne : (f : ℕ → T) (i j : ℕ) (v : T) → i ≢ j → update f i v j ≡ f j
  update-ne f i j v h = ground arith

  pub window_of_ne_zero :
      (store : ℕ → T) (m h n : ℕ)
      → n ≢ 0
      → window store m h n ≡ store h ∷ window store m ((h + 1) % m) (n - 1)
  window_of_ne_zero store m h zero ne = absurd (ne refl)
  window_of_ne_zero store m h (suc n) ne = ap (λ k. window store m h (suc k)) (omega arith)

  -- Writing just past a window extends it by that message.
  pub window-update :
      (store : ℕ → T) (cap : ℕ) (v : T) (n h i : ℕ)
      → h < cap
      → n < cap
      → i ≡ (h + n) % cap
      → window (update store i v) cap h (suc n) ≡ window store cap h n ++ (v ∷ [])
  window-update store cap v zero h i hh hn e = rw (e, add-zero, mod-eq_of_lt hh) (ground arith)
  window-update store cap v (suc n) h i hh hn e =
      ap₂ ◌∷◌ (update-ne store i h v (rw e (elsewhere cap h (suc n) hh (omega arith) hn))) (
        window-update store cap v n ((h + 1) % cap) i (omega arith) (omega arith)
          (e ∙ shift cap h n))

  -- A new queue is valid and holds nothing.
  pub new_queue-IsValid :
      (blank : T) (n : ℕ)
      → 0 < n
      → IsValid (new_queue blank n) × (contents (new_queue blank n) ≡ [])
  unfolding new_queue
  new_queue-IsValid blank n h =
      (record { read_in = h; within = omega arith; write_at = ground arith }, refl)

  -- With room left, a push appends the message at the end and keeps the queue valid.
  pub contents-push :
      (q : SpscQueue T) (v : T)
      → IsValid q
      → q.num_elements < q.capacity
      → IsValid (push q v) × (contents (push q v) ≡ contents q ++ (v ∷ []))
  unfolding push
  contents-push q v w room = (
    record {
      read_in = w.read_in;
      within = omega arith;
      write_at = rw (w.write_at, mod-add-mod) (ap (λ k. k % q.capacity) (omega arith));
    },
    rw add-one (
        window-update q.store q.capacity v q.num_elements q.next_read_idx q.next_write_idx w.read_in
          room w.write_at),
  )

  pub capacity-push : (q : SpscQueue T) (v : T) → (push q v).capacity ≡ q.capacity
  unfolding push
  capacity-push q v = refl

  pub num_elements-push : (q : SpscQueue T) (v : T) → (push q v).num_elements ≡ q.num_elements + 1
  unfolding push
  num_elements-push q v = refl

  -- On a valid queue that holds a message, releasing a slot drops the oldest one and keeps the queue
  -- valid.
  pub contents-update_next_read :
      (q : SpscQueue T)
      → IsValid q
      → q.num_elements ≢ 0
      → (r : SpscQueue T) × (update_next_read q ≡ ok r)
        × IsValid r
        × (contents q ≡ q.store q.next_read_idx ∷ contents r)
        × (r.num_elements + 1 ≡ q.num_elements)
        × (r.capacity ≡ q.capacity)
  unfolding update_next_read
  contents-update_next_read q w ne = (
    record q {
      next_read_idx = (q.next_read_idx + 1) % q.capacity;
      num_elements = q.num_elements - 1;
    },
    ground arith,
    record {
      read_in = omega (arith, w.read_in);
      within = omega (arith, w.within);
      write_at = w.write_at ∙ shift_pred q.capacity q.next_read_idx q.num_elements ne;
    },
    window_of_ne_zero q.store q.capacity q.next_read_idx q.num_elements ne,
    omega arith,
    refl,
  )

  -- On a valid queue a consumer sees the oldest message, unless the queue is empty or full to the last
  -- slot: a full queue has its two indices equal and is taken for an empty one.
  pub get_next_read-contents :
      (q : SpscQueue T)
      → IsValid q
      → get_next_read q ≡ (if q.num_elements == q.capacity then none else Fifo.oldest (contents q))
  unfolding get_next_read
  get_next_read-contents q w = elim (size-cases q.num_elements q.capacity w.within) [
    | inl e ↦ rw e (ground arith)
    | inr (inl e) ↦
        let wrapped : q.next_write_idx ≡ q.next_read_idx =
          w.write_at ∙ ap (λ k. (q.next_read_idx + k) % q.capacity) e ∙ once_round _ _ w.read_in in
        rw (e, wrapped) (ground arith)
    | inr (inr (k, e, h)) ↦
        let apart : q.next_write_idx ≢ q.next_read_idx =
          rw (w.write_at, e)
            (elsewhere q.capacity q.next_read_idx (suc k) w.read_in (omega arith) h) in
        rw (e, get_next_read) (ground arith)
  ]

  take_next_empty : (q : SpscQueue T) → q.num_elements ≡ 0 → take_next q ≡ ok (none, q)
  unfolding take_next
  take_next_empty q e = ground arith

  take_next_oldest :
      (q : SpscQueue T)
      → IsValid q
      → q.num_elements ≢ 0
      → q.num_elements < q.capacity
      → (r : SpscQueue T) × (take_next q ≡ ok (some (q.store q.next_read_idx), r))
        × IsValid r
        × (contents q ≡ q.store q.next_read_idx ∷ contents r)
        × (r.num_elements + 1 ≡ q.num_elements)
        × (r.capacity ≡ q.capacity)
  unfolding take_next
  take_next_oldest q w ne room =
      let step = contents-update_next_read q w ne in
      (
        step.0,
        ground (
          arith,
          window_of_ne_zero q.store q.capacity q.next_read_idx q.num_elements ne,
          get_next_read-contents q w,
          step.1,
        ),
        step.2,
        step.3,
        step.4,
        step.5,
      )

  -- The calls of one producer and one consumer, in the order in which they take effect.
  pub run : SpscQueue T → List (Op T) → Result (List (Option T))
  run q [] = ok []
  run q (put v ∷ ops) = run (push q v) ops
  run q (take ∷ ops) = do (o, r) ← take_next q; rest ← run r ops; ok (o ∷ rest)

  -- As long as the producer leaves one slot free, no sequence of calls on a valid queue tells the ring
  -- from the first-in first-out list of its contents, and no call aborts.
  pub run_refines :
      (ops : List (Op T)) (q : SpscQueue T) (room : ℕ)
      → IsValid q
      → room + 1 ≡ q.capacity
      → q.num_elements ≤ room
      → Fifo.Fits room (contents q) ops
      → run q ops ≡ ok (Fifo.run (contents q) ops)
  unfolding run Fifo.run
  run_refines [] q room w e n f = refl
  run_refines (put v ∷ ops) q room w e n (h, f) =
      let counted = length-window q.store q.capacity q.next_read_idx q.num_elements in
      let (w', same) = contents-push q v w (omega (arith, e)) in
      run_refines ops (push q v) room w' (e ∙ sym (capacity-push q v))
        (omega (arith, counted, num_elements-push q v)) (rw same f)
      ∙ ap (λ xs. ok (Fifo.run xs ops)) same
  run_refines (take ∷ ops) q room w e n f = elim (ℕ_discrete q.num_elements 0) [
    | yes z ↦
        let nil : contents q ≡ [] = rw z refl in
        let still : Fifo.rest (contents q) ≡ contents q = rw nil refl in
        rw
          (
            take_next_empty q z,
            run_refines ops q room w e n (subst (λ xs. Fifo.Fits room xs ops) still f),
            still,
            nil,
          )
          refl
    | no ne ↦
        let step = take_next_oldest q w ne (omega arith) in
        rw
          (
            step.1,
            run_refines ops step.0 room step.2 (e ∙ sym step.5) (omega (arith, step.4))
                (rw step.3 at f),
            step.3,
          )
          refl
  ]
