-- ===== src/Logger/Stuck.antt =====
-- When the logger's threads make progress, and when they never do again.
use mathlib.Core.List.{flatten, append-nil}
use native.Mathlib.Decide.{ℕ_discrete}
use trading_system.Prelude.{
  ℕ, zero, suc, ◌+◌, ◌<◌, ◌≡◌, ◌≢◌, refl, ◌∙◌, ◌⊎◌, inl, inr, List, [], ◌∷◌, none, some, ok, arith,
  length,
}
use trading_system.SpscQueue.{SpscQueue, new_queue, push, get_next_read, update_next_read}
use trading_system.SpscQueue.Refine.{
  IsValid, contents-push, contents-update_next_read, get_next_read-contents, num_elements-push,
  capacity-push, new_queue-IsValid,
}
use trading_system.Logger.{Logger, new_logger, Step, skip, push_val, flush, Reach, start, later}
use trading_system.Logger.Written.{text_of}

-- A full queue is read as empty.
full-unseen :
    (q : SpscQueue (List ℕ)) → IsValid q → q.num_elements ≡ q.capacity → get_next_read q ≡ none
full-unseen q w e = get_next_read-contents q w ∙ ground arith

-- Once the queue is full and a string waits to be pushed, neither thread ever moves again.
pub full_stuck :
    (l m : Logger) (s : List ℕ) (ps : List (List ℕ))
    → IsValid l.logger_queue
    → l.logger_queue.num_elements ≡ l.logger_queue.capacity
    → l.pending ≡ s ∷ ps
    → s ≢ []
    → ¬ (Step l m)
full_stuck l m s ps w full e n (skip h) = n cc
full_stuck l m s ps w full e n (push_val h k room) = omega (arith, full)
full_stuck l m s ps w full e n (flush seen released) =
    let unseen = full-unseen l.logger_queue w full in cc

some-seen :
    (q : SpscQueue (List ℕ))
    → IsValid q
    → q.num_elements < q.capacity
    → q.num_elements ≢ 0
    → (s : List ℕ) × (r : SpscQueue (List ℕ)) × (get_next_read q ≡ some s)
      × (update_next_read q ≡ ok r)
some-seen q w room ne =
    let (r, released, _, split, _, _) = contents-update_next_read q w ne in
    (q.store q.next_read_idx, r, get_next_read-contents q w ∙ rw split (ground arith), released)

-- As long as a slot of the queue is free, some step is left until all of the text is in the file.
pub free_moves :
    (l : Logger)
    → IsValid l.logger_queue
    → l.logger_queue.num_elements < l.logger_queue.capacity
    → ((m : Logger) × Step l m) ⊎ (text_of l ≡ l.file)
unfolding flatten
free_moves l w room = by_pending l.pending refl
  where
    by_pending :
        (ps : List (List ℕ)) → l.pending ≡ ps → ((m : Logger) × Step l m) ⊎ (text_of l ≡ l.file)
    by_pending ([] ∷ ps) e = inl (_, skip e)
    by_pending ((c ∷ cs) ∷ ps) e = inl (_, push_val e (λ h. cc) room)
    by_pending [] e = elim (ℕ_discrete l.logger_queue.num_elements 0) [
      | yes z ↦ inr (rw (z, e) (append-nil l.file))
      | no ne ↦
          let (s, r, seen, released) = some-seen l.logger_queue w room ne in
          inl (_, flush seen released)
    ]

-- No string is empty.
abbrev pub AllSome : List (List ℕ) → Type 0
AllSome [] = Unit {0}
AllSome (s ∷ ss) = (s ≢ []) × AllSome ss

-- Nothing is written, and neither thread ever moves again.
pub record Wedged (l : Logger) : Type 0 where
  pub nothing_written : l.file ≡ []
  pub no_step : (m : Logger) → ¬ (Step l m)

fills :
    (free : ℕ) (l m : Logger) (ps : List (List ℕ))
    → Reach l m
    → IsValid m.logger_queue
    → m.file ≡ []
    → m.logger_queue.num_elements + free ≡ m.logger_queue.capacity
    → m.pending ≡ ps
    → AllSome ps
    → free < length ps
    → (n : Logger) × Reach l n × Wedged n
fills free l m [] r w empty room e k more = absurd (omega arith)
fills zero l m (s ∷ ps) r w empty room e k more =
    let full : m.logger_queue.num_elements ≡ m.logger_queue.capacity = omega arith in
    (m, r, record { nothing_written = empty; no_step = λ n. full_stuck m n s ps w full e k.0 })
fills (suc free) l m (s ∷ ps) r w empty room e k more =
    let next = record m { logger_queue = push m.logger_queue s; pending = ps } in
    fills free l next ps (later r (push_val e k.0 (omega arith)))
      (contents-push m.logger_queue s w (omega arith)).0 empty
      (omega (arith, room, num_elements-push m.logger_queue s, capacity-push m.logger_queue s)) refl
      k.1 (omega arith)

-- If a burst of more strings than the queue has slots is pushed before the writing thread looks, the
-- logger is wedged with an empty file: the queue is full, is read as empty, and `pushVal` waits for it.
pub burst_wedges :
    (capacity : ℕ) (strings : List (List ℕ))
    → 0 < capacity
    → AllSome strings
    → capacity < length strings
    → (l : Logger) × Reach (new_logger capacity strings) l × Wedged l
unfolding new_logger new_queue
burst_wedges capacity strings h k more =
    fills capacity (new_logger capacity strings) (new_logger capacity strings) strings start
      (new_queue-IsValid [] capacity h).0 refl (omega arith) refl k more
