-- ===== src/SpscQueue/Threads.antt =====
-- include/utils/spsc_queue.hpp, one shared access at a time: a producer and a consumer that run at once.
-- The indices and the count are atomic; a slot is not.
use trading_system.Prelude.{ℕ, ◌+◌, ◌-◌, ◌%◌, ◌<◌, ◌≡◌, ◌≢◌, List, [], ◌∷◌, ◌++◌, update}
use trading_system.SpscQueue.{SpscQueue, new_queue}

-- Before `getNextWrite`, before the store of `next_write_idx`, and before `num_elements++`.
pub data Producer : Type 0 where
  resting written advanced : Producer

-- Before `getNextRead`, after its test of `num_elements`, with the pointer in hand, with the message
-- taken, and after the store of `next_read_idx`.
pub data Consumer : Type 0 where
  waiting counted reading taken released : Consumer

-- `sent` and `received` are what was written to a slot and what was read from one, oldest first.
pub record Threads {ℓ} (T : Type ℓ) : Type ℓ where
  pub ring : SpscQueue T
  pub producer : Producer
  pub consumer : Consumer
  pub sent : List T
  pub received : List T

module _ {ℓ} {T : Type ℓ} where
  abbrev pub idle_threads : T → ℕ → Threads T
  idle_threads blank n = record {
    ring = new_queue blank n;
    producer = resting;
    consumer = waiting;
    sent = [];
    received = [];
  }

  -- `write` is open to the producer only while the count leaves two slots: no call of the queue tests
  -- it. A consumer that finds nothing stays where it is.
  pub data Step (s : Threads T) : Threads T → Type ℓ where
    write :
        (v : T)
        → s.producer ≡ resting
        → s.ring.num_elements + 1 < s.ring.capacity
        → Step s (record s {
          ring = record (s.ring) { store = update s.ring.store s.ring.next_write_idx v };
          producer = written;
          sent = s.sent ++ (v ∷ []);
        })
    advance :
        s.producer ≡ written
        → Step s (record s {
          ring = record (s.ring) { next_write_idx = (s.ring.next_write_idx + 1) % s.ring.capacity };
          producer = advanced;
        })
    count :
        s.producer ≡ advanced
        → Step s (record s {
          ring = record (s.ring) { num_elements = s.ring.num_elements + 1 };
          producer = resting;
        })
    test_count :
        s.consumer ≡ waiting → s.ring.num_elements ≢ 0 → Step s (record s { consumer = counted })
    turn_away :
        s.consumer ≡ counted
        → s.ring.next_read_idx ≡ s.ring.next_write_idx
        → Step s (record s { consumer = waiting })
    point :
        s.consumer ≡ counted
        → s.ring.next_read_idx ≢ s.ring.next_write_idx
        → Step s (record s { consumer = reading })
    take :
        s.consumer ≡ reading
        → Step s (record s {
          consumer = taken;
          received = s.received ++ (s.ring.store s.ring.next_read_idx ∷ []);
        })
    release :
        s.consumer ≡ taken
        → Step s (record s {
          ring = record (s.ring) { next_read_idx = (s.ring.next_read_idx + 1) % s.ring.capacity };
          consumer = released;
        })
    uncount :
        s.consumer ≡ released
        → s.ring.num_elements ≢ 0
        → Step s (record s {
          ring = record (s.ring) { num_elements = s.ring.num_elements - 1 };
          consumer = waiting;
        })

  pub data Reach (s : Threads T) : Threads T → Type ℓ where
    start : Reach s s
    later : {t u : Threads T} → Reach s t → Step t u → Reach s u
