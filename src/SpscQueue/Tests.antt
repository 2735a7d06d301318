-- ===== src/SpscQueue/Tests.antt =====
-- Queues at work.
use trading_system.Prelude.{ℕ, ◌+◌, ◌≡◌, refl, [], ◌∷◌, none, some, ok, arith, update}
use trading_system.SpscQueue.{SpscQueue, new_queue, get_next_read}
use trading_system.SpscQueue.Fifo.{Op, put, take}
use trading_system.SpscQueue.Fifo
use trading_system.SpscQueue.Threads.{
  Threads, written, reading, idle_threads, write, advance, count, test_count, point, Reach, start,
  later,
}
use trading_system.SpscQueue.Interleaving.{Sound, interleaving-Sound}
use trading_system.SpscQueue.Refine.{IsValid, get_next_read-contents, run, run_refines}

-- One message, in the last slot of three.
abbrev wrapping : SpscQueue ℕ
wrapping = record {
  store = λ i. i + 10;
  capacity = 3;
  next_read_idx = 2;
  next_write_idx = 0;
  num_elements = 1;
}

wrapping-IsValid : IsValid wrapping
wrapping-IsValid = record { read_in = omega arith; within = omega arith; write_at = refl }

-- Three messages in three slots are seen as none.
abbrev full : SpscQueue ℕ
full = record {
  store = λ i. i + 10;
  capacity = 3;
  next_read_idx = 1;
  next_write_idx = 1;
  num_elements = 3;
}

full-IsValid : IsValid full
full-IsValid = record { read_in = omega arith; within = omega arith; write_at = refl }

get_next_read-contents_example : get_next_read full ≡ none
get_next_read-contents_example = get_next_read-contents full full-IsValid

run_refines_example :
    run wrapping (put 5 ∷ take ∷ take ∷ take ∷ []) ≡ ok (some 12 ∷ some 5 ∷ none ∷ [])
unfolding Fifo.run
run_refines_example =
    run_refines (put 5 ∷ take ∷ take ∷ take ∷ []) wrapping 2 wrapping-IsValid refl (omega arith)
      (omega arith, tt)

-- A message is read while the next one is being written.
abbrev both_busy : Threads ℕ
both_busy = record {
  ring = record {
    store = update (update (λ _. 0) 0 7) 1 8;
    capacity = 4;
    next_read_idx = 0;
    next_write_idx = 1;
    num_elements = 1;
  };
  producer = written;
  consumer = reading;
  sent = 7 ∷ 8 ∷ [];
  received = [];
}

both_busy-reached : Reach (idle_threads 0 4) both_busy
unfolding new_queue
both_busy-reached =
    later
      (later
        (later
          (later (later (later start (write 7 refl (omega arith))) (advance refl)) (count refl))
          (test_count refl (omega arith)))
        (write 8 refl (omega arith)))
      (point refl (omega arith))

interleaving-Sound_example : Sound both_busy
interleaving-Sound_example = interleaving-Sound 0 4 both_busy (omega arith) both_busy-reached
