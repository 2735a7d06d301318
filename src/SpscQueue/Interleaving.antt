-- ===== src/SpscQueue/Interleaving.antt =====
-- The two threads of a queue, in any order of their shared accesses.
use mathlib.Core.List.{append_assoc}
use native.Mathlib.Nat.{mod-add-mod}
use trading_system.Prelude.{
  ℕ, suc, ◌+◌, ◌-◌, ◌%◌, ◌<◌, ◌≡◌, ◌≢◌, refl, sym, ap, ◌∙◌, Bool, true, false, List, [], ◌∷◌, ◌++◌,
  arith, length, update,
}
use trading_system.SpscQueue.{new_queue}
use trading_system.SpscQueue.Fifo.{rest}
use trading_system.SpscQueue.Refine.{
  elsewhere, shift_pred, window, window_of_ne_zero, window-update, length-window,
}
use trading_system.SpscQueue.Threads.{
  Producer, resting, written, advanced, Consumer, waiting, counted, reading, taken, released,
  Threads, idle_threads, Step, write, advance, count, test_count, turn_away, point, take, release,
  uncount, Reach, start, later,
}

-- A slot that is written lies beyond the write index.
abbrev pub beyond : Producer → ℕ
beyond written = 1
beyond _ = 0

-- A message behind the write index is not counted yet.
abbrev pub uncounted : Producer → ℕ
uncounted advanced = 1
uncounted _ = 0

-- A message that was released is still counted.
abbrev pub overcounted : Consumer → ℕ
overcounted released = 1
overcounted _ = 0

-- The consumer has seen that there is a message.
abbrev pub engaged : Consumer → Bool
engaged waiting = false
engaged _ = true

module _ {ℓ} {T : Type ℓ} where
  -- The first message of the ring was received but is not yet released.
  abbrev pub unread : Consumer → List T → List T
  unread taken xs = rest xs
  unread _ xs = xs

  -- `between` slots lie from the read index to the write index.
  pub record Inv (s : Threads T) : Type ℓ where
    pub between : ℕ
    pub read_in : s.ring.next_read_idx < s.ring.capacity
    pub room : between + beyond s.producer < s.ring.capacity
    pub write_at : s.ring.next_write_idx ≡ (s.ring.next_read_idx + between) % s.ring.capacity
    pub counts : s.ring.num_elements + uncounted s.producer ≡ between + overcounted s.consumer
    pub some_left : engaged s.consumer ≡ true → s.ring.num_elements ≢ 0
    pub in_order :
        s.sent
        ≡ s.received
          ++ unread s.consumer (
              window s.ring.store s.ring.capacity s.ring.next_read_idx
                (between + beyond s.producer))

  unread-append :
      (c : Consumer) (xs : List T) (v : T)
      → (c ≡ taken → length xs ≢ 0)
      → unread c (xs ++ (v ∷ [])) ≡ unread c xs ++ (v ∷ [])
  unread-append taken [] v h = absurd (h refl refl)
  unread-append taken (x ∷ xs) v h = refl
  unread-append _ xs v h = refl

  -- The messages that were sent and not yet released.
  abbrev held : (s : Threads T) → ℕ → List T
  held s n = window s.ring.store s.ring.capacity s.ring.next_read_idx n

  between-ne :
      (s : Threads T) (i : Inv s) (c : Consumer)
      → s.consumer ≡ c
      → overcounted c ≡ 0
      → engaged c ≡ true
      → i.between ≢ 0
  between-ne s i c e over busy =
      let some = i.some_left (ap engaged e ∙ busy) in
      omega (arith, i.counts, ap overcounted e, over, some)

  -- Another place of the consumer sees the same messages.
  moved :
      (s : Threads T) (i : Inv s) {c : Consumer}
      → s.consumer ≡ c
      → s.sent ≡ s.received ++ unread c (held s (i.between + beyond s.producer))
  moved s i e =
      i.in_order ∙ ap (λ c. s.received ++ unread c (held s (i.between + beyond s.producer))) e

  Step-Inv_write :
      (s : Threads T) (v : T) (i : Inv s)
      → s.producer ≡ resting
      → i.between < s.ring.capacity
      → s.sent ++ (v ∷ [])
        ≡ s.received
          ++ unread s.consumer (
              window
                (update s.ring.store s.ring.next_write_idx v)
                s.ring.capacity
                s.ring.next_read_idx
                (i.between + 1))
  Step-Inv_write s v i p few =
      let all = held s (i.between + beyond s.producer) in
      let nonempty : s.consumer ≡ taken → length all ≢ 0 = λ e z. between-ne s i taken e refl refl (
        omega (
          arith,
          z,
          length-window s.ring.store s.ring.capacity s.ring.next_read_idx
              (i.between + beyond s.producer),
        )) in
      let longer =
        window-update s.ring.store s.ring.capacity v i.between s.ring.next_read_idx
          s.ring.next_write_idx i.read_in few i.write_at in
      let one_more : suc i.between ≡ i.between + 1 = omega arith in
      ap (λ xs. xs ++ (v ∷ [])) i.in_order
      ∙ append_assoc s.received (unread s.consumer all) (v ∷ [])
      ∙ ap (λ xs. s.received ++ xs)
          (sym (unread-append s.consumer all v nonempty)
            ∙ ap (λ n. unread s.consumer (held s n ++ (v ∷ []))) (omega (arith, ap beyond p))
            ∙ ap (unread s.consumer) (sym longer)
            ∙ ap
                (λ n. unread s.consumer (
                  window (update s.ring.store s.ring.next_write_idx v) s.ring.capacity
                    s.ring.next_read_idx n))
                one_more)

  Step-Inv : {s t : Threads T} → Step s t → Inv s → Inv t
  Step-Inv {s} (write v p room) i =
      let few : i.between + 1 < s.ring.capacity = omega (arith, i.counts, ap uncounted p) in
      record {
        between = i.between;
        read_in = i.read_in;
        room = few;
        write_at = i.write_at;
        counts = omega (arith, i.counts, ap uncounted p);
        some_left = i.some_left;
        in_order = Step-Inv_write s v i p (omega (arith, few));
      }
  Step-Inv {s} (advance p) i = record {
    between = i.between + 1;
    read_in = i.read_in;
    room = omega (arith, i.room, ap beyond p);
    write_at = rw (i.write_at, mod-add-mod) (ap (λ k. k % s.ring.capacity) (omega arith));
    counts = omega (arith, i.counts, ap uncounted p);
    some_left = i.some_left;
    in_order =
        i.in_order
        ∙ ap (λ n. s.received ++ unread s.consumer (held s n)) (omega (arith, ap beyond p));
  }
  Step-Inv {s} (count p) i = record {
    between = i.between;
    read_in = i.read_in;
    room = omega (arith, i.room, ap beyond p);
    write_at = i.write_at;
    counts = omega (arith, i.counts, ap uncounted p);
    some_left = λ _. omega arith;
    in_order =
        i.in_order
        ∙ ap (λ n. s.received ++ unread s.consumer (held s n)) (omega (arith, ap beyond p));
  }
  Step-Inv {s} (test_count c ne) i = record {
    between = i.between;
    read_in = i.read_in;
    room = i.room;
    write_at = i.write_at;
    counts = omega (arith, i.counts, ap overcounted c);
    some_left = λ _. ne;
    in_order = moved s i c;
  }
  Step-Inv {s} (turn_away c e) i = record {
    between = i.between;
    read_in = i.read_in;
    room = i.room;
    write_at = i.write_at;
    counts = omega (arith, i.counts, ap overcounted c);
    some_left = λ h. cc;
    in_order = moved s i c;
  }
  Step-Inv {s} (point c ne) i = record {
    between = i.between;
    read_in = i.read_in;
    room = i.room;
    write_at = i.write_at;
    counts = omega (arith, i.counts, ap overcounted c);
    some_left = λ _. i.some_left (ap engaged c);
    in_order = moved s i c;
  }
  Step-Inv {s} (take c) i =
      let n = i.between + beyond s.producer in
      let some = between-ne s i reading c refl refl in
      let split =
        window_of_ne_zero s.ring.store s.ring.capacity s.ring.next_read_idx n
          (omega (arith, some)) in
      record {
        between = i.between;
        read_in = i.read_in;
        room = i.room;
        write_at = i.write_at;
        counts = omega (arith, i.counts, ap overcounted c);
        some_left = λ _. i.some_left (ap engaged c);
        in_order =
            moved s i c
            ∙ ap (λ xs. s.received ++ xs)
                (split ∙ ap (λ xs. s.ring.store s.ring.next_read_idx ∷ xs) (sym (ap rest split)))
            ∙ sym (append_assoc s.received (s.ring.store s.ring.next_read_idx ∷ []) _);
      }
  Step-Inv {s} (release c) i =
      let n = i.between + beyond s.producer in
      let some = between-ne s i taken c refl refl in
      let split =
        window_of_ne_zero s.ring.store s.ring.capacity s.ring.next_read_idx n
          (omega (arith, some)) in
      let next = (s.ring.next_read_idx + 1) % s.ring.capacity in
      record {
        between = i.between - 1;
        read_in = omega (arith, i.read_in);
        room = omega (arith, i.room, some);
        write_at = i.write_at ∙ shift_pred s.ring.capacity s.ring.next_read_idx i.between some;
        counts = omega (arith, i.counts, ap overcounted c, some);
        some_left = λ _. i.some_left (ap engaged c);
        in_order =
            moved s i c
            ∙ ap (λ xs. s.received ++ xs)
                (ap rest split
                  ∙ ap (window s.ring.store s.ring.capacity next) (omega (arith, some)));
      }
  Step-Inv {s} (uncount c ne) i = record {
    between = i.between;
    read_in = i.read_in;
    room = i.room;
    write_at = i.write_at;
    counts = omega (arith, i.counts, ap overcounted c, ne);
    some_left = λ h. cc;
    in_order = moved s i c;
  }

  idle_threads-Inv : (blank : T) (n : ℕ) → 0 < n → Inv (idle_threads blank n)
  unfolding new_queue
  idle_threads-Inv blank n h = record {
    between = 0;
    read_in = h;
    room = h;
    write_at = ground (arith, h);
    counts = refl;
    some_left = λ e. cc;
    in_order = refl;
  }

  pub Reach-Inv : {s t : Threads T} → Inv s → Reach s t → Inv t
  Reach-Inv i start = i
  Reach-Inv i (later r st) = Step-Inv st (Reach-Inv i r)

  -- What holds wherever the two threads stand.
  pub record Sound (s : Threads T) : Type ℓ where
    -- What was received is what was sent first, in order.
    pub on_the_way : List T
    pub nothing_lost : s.sent ≡ s.received ++ on_the_way
    -- The `assert` of `updateNextRead` holds.
    pub counted_still : s.consumer ≡ released → s.ring.num_elements ≢ 0
    -- The consumer that has seen a count is not turned away.
    pub seen : s.consumer ≡ counted → s.ring.next_read_idx ≢ s.ring.next_write_idx
    -- The producer never writes the slot that the consumer reads.
    pub no_race :
        s.consumer ≡ reading → s.producer ≡ resting → s.ring.next_read_idx ≢ s.ring.next_write_idx

  apart : (s : Threads T) (i : Inv s) → i.between ≢ 0 → s.ring.next_read_idx ≢ s.ring.next_write_idx
  apart s i some e =
      elsewhere s.ring.capacity s.ring.next_read_idx i.between i.read_in some
        (omega (arith, i.room)) (sym (e ∙ i.write_at))

  -- However the shared accesses of producer and consumer interleave, from a new queue on: what was
  -- received is the beginning of what was sent, the assertion of `updateNextRead` holds, a consumer
  -- that has seen a count finds a message, and the slot it reads is not the one that is written. The
  -- producer must leave two slots by the count when it begins to write.
  pub interleaving-Sound :
      (blank : T) (n : ℕ) (s : Threads T) → 0 < n → Reach (idle_threads blank n) s → Sound s
  interleaving-Sound blank n s h r =
      let i = Reach-Inv (idle_threads-Inv blank n h) r in
      record {
        on_the_way = _;
        nothing_lost = i.in_order;
        counted_still = λ e. i.some_left (ap engaged e);
        seen = λ e. apart s i (between-ne s i counted e refl refl);
        no_race = λ e _. apart s i (between-ne s i reading e refl refl);
      }
