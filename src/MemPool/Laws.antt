-- ===== src/MemPool/Laws.antt =====
-- What a client of the pool may rely on.
use trading_system.Prelude.{
  ℕ, zero, suc, ◌+◌, ◌<◌, ◌≤◌, ◌≡◌, ◌≢◌, refl, ◌⊎◌, inl, inr, true, false, Option, none, some,
  Result, ok, err, assert_failed, if◌then◌else◌, update, arith, Bool-cases, ap, ◌∙◌, Ensures,
  returns, faults,
}
use trading_system.MemPool.{
  ObjectBlock, MemPool, first_free, new_pool, allocate, deallocate, occupy, read,
}

le-cases : (i j : ℕ) → i ≤ j → (i ≡ j) ⊎ (suc i ≤ j)
le-cases i j h = omega arith

module _ {ℓ} {T : Type ℓ} where
  abbrev pub in_use : ObjectBlock T → ℕ
  in_use b = if b.is_free then 0 else 1

  free-cases :
      (p : MemPool T) (i : ℕ)
      → ((p.size ≤ i) ⊎ ((p.cells i).is_free ≡ true))
        ⊎ ((i < p.size) × ((p.cells i).is_free ≡ false))
  free-cases p i = ground arith

  -- The number of cells in use among the `n` indices from `i` on.
  abbrev pub live_from : (ℕ → ObjectBlock T) → ℕ → ℕ → ℕ
  live_from cells zero i = 0
  live_from cells (suc n) i = in_use (cells i) + live_from cells n (suc i)

  unfoldable pub live : MemPool T → ℕ
  live p = live_from p.cells p.size 0

  -- `first_free` finds a free cell within the range, below which all are in use.
  abbrev pub Finds : (ℕ → ObjectBlock T) → ℕ → ℕ → Option ℕ → Type 0
  Finds cells n i none = (j : ℕ) → i ≤ j → j < i + n → (cells j).is_free ≡ false
  Finds cells n i (some k) =
      (i ≤ k)
      × (k < i + n)
      × ((cells k).is_free ≡ true)
      × ((j : ℕ) → i ≤ j → j < k → (cells j).is_free ≡ false)

  first_free-Finds : (cells : ℕ → ObjectBlock T) (n i : ℕ) → Finds cells n i (first_free cells n i)
  unfolding first_free
  first_free-Finds cells zero i = λ j h k. absurd (omega arith)
  first_free-Finds cells (suc n) i = elim (Bool-cases (cells i).is_free) [
    | inl e ↦ rw e (omega arith, omega arith, e, λ j h k. absurd (omega arith))
    | inr e ↦ rw e (beyond (first_free cells n (suc i)) (first_free-Finds cells n (suc i)) e)
  ]
    where
      beyond :
          (r : Option ℕ)
          → Finds cells n (suc i) r
          → (cells i).is_free ≡ false
          → Finds cells (suc n) i r
      beyond none f e =
          λ j h k. elim (le-cases i j h) [ inl q ↦ rw (← q) e | inr q ↦ f j q (omega arith) ]
      beyond (some k) (a, b, c, d) e = (
        omega arith,
        omega arith,
        c,
        λ j h l. elim (le-cases i j h) [ inl q ↦ rw (← q) e | inr q ↦ d j q l ],
      )

  live_from-update_below :
      (cells : ℕ → ObjectBlock T) (n i k : ℕ) (b : ObjectBlock T)
      → k < i
      → live_from (update cells k b) n i ≡ live_from cells n i
  live_from-update_below cells zero i k b h = refl
  live_from-update_below cells (suc n) i k b h =
      ground (arith, live_from-update_below cells n (suc i) k b)

  -- A write moves the count by the change of the one cell.
  live_from-update :
      (cells : ℕ → ObjectBlock T) (n i k : ℕ) (b : ObjectBlock T)
      → i ≤ k
      → k < i + n
      → live_from (update cells k b) n i + in_use (cells k) ≡ live_from cells n i + in_use b
  live_from-update cells zero i k b h l = absurd (omega arith)
  live_from-update cells (suc n) i k b h l = elim (le-cases i k h) [
    | inl e ↦ ground (arith, live_from-update_below cells n (suc i) k b)
    | inr m ↦ ground (arith, live_from-update cells n (suc i) k b)
  ]

  -- The next cell to be handed out is free, unless there is none.
  pub record IsValid (p : MemPool T) : Type 0 where
    pub in_range : p.next_free_index < p.size
    pub next_is_free : (p.cells p.next_free_index).is_free ≡ true

  -- Everything that `allocate` does when it returns.
  pub record Allocated (p : MemPool T) (v : T) (i : ℕ) (q : MemPool T) : Type ℓ where
    pub handed_out : i ≡ p.next_free_index
    pub was_free : (p.cells i).is_free ≡ true
    pub cells_after : q.cells ≡ (occupy p i v).cells
    pub same_size : q.size ≡ p.size
    pub one_more : live q ≡ live p + 1
    pub still_valid : IsValid q

  live_from_full :
      (cells : ℕ → ObjectBlock T) (n i : ℕ)
      → ((j : ℕ) → i ≤ j → j < i + n → (cells j).is_free ≡ false)
      → live_from cells n i ≡ n
  live_from_full cells zero i h = refl
  live_from_full cells (suc n) i h = ground (
    arith,
    h i (omega arith) (omega arith),
    live_from_full cells n (suc i) (λ j a b. h j (omega arith) (omega arith)),
  )

  -- What a call of `allocate` can come to on a valid pool.
  abbrev pub Outcome : MemPool T → T → Result (ℕ × MemPool T) → Type ℓ
  Outcome p v r =
      ((q : MemPool T) × (r ≡ ok (p.next_free_index, q)) × Allocated p v p.next_free_index q)
      ⊎ ((r ≡ err assert_failed) × (p.size ≡ live p + 1))

  -- On a valid pool `allocate` has two outcomes. It hands out the next free cell, which no live
  -- object has, stores the object there and changes no other cell; or, when that cell was the last
  -- free one, the process is aborted.
  pub allocate-Outcome : (p : MemPool T) (v : T) → IsValid p → Outcome p v (allocate p v)
  unfolding allocate live
  allocate-Outcome p v w =
      by_scan (first_free cells' p.size 0) refl (first_free-Finds cells' p.size 0)
    where
      cells' : ℕ → ObjectBlock T
      cells' = (occupy p p.next_free_index v).cells

      counted : live_from cells' p.size 0 ≡ live_from p.cells p.size 0 + 1
      counted = ground (
        arith,
        w.in_range,
        w.next_is_free,
        live_from-update p.cells p.size 0 p.next_free_index (record { object = v; is_free = false })
            (omega arith) (omega arith),
      )

      by_scan :
          (r : Option ℕ)
          → first_free cells' p.size 0 ≡ r
          → Finds cells' p.size 0 r
          → Outcome p v (allocate p v)
      by_scan none e f =
          inr (ground (arith, w.in_range), omega (arith, counted, live_from_full cells' p.size 0 f))
      by_scan (some k) e f = inl (
        record (occupy p p.next_free_index v) { next_free_index = k },
        ground (arith, w.in_range),
        record {
          handed_out = refl;
          was_free = w.next_is_free;
          cells_after = refl;
          same_size = refl;
          one_more = counted;
          still_valid = record { in_range = omega arith; next_is_free = f.2 };
        },
      )

  -- Two free cells are enough for an allocation.
  pub allocate-ok :
      (p : MemPool T) (v : T)
      → IsValid p
      → live p + 2 ≤ p.size
      → (q : MemPool T) × (allocate p v ≡ ok (p.next_free_index, q))
        × Allocated p v p.next_free_index q
  allocate-ok p v w h = elim (allocate-Outcome p v w) [
    | inl found ↦ found
    | inr (_, full) ↦ absurd (omega arith)
  ]

  live_from_free :
      (v : T) (n i : ℕ) → live_from (λ _. record { object = v; is_free = true }) n i ≡ 0
  live_from_free v zero i = refl
  live_from_free v (suc n) i = omega (arith, live_from_free v n (suc i))

  -- The constructor of a pool of at least one cell returns: the pool is valid and holds no object.
  pub new_pool-IsValid :
      (blank : T) (n : ℕ)
      → 0 < n
      → (p : MemPool T) × (new_pool blank n ≡ ok p) × IsValid p × (live p ≡ 0) × (p.size ≡ n)
  unfolding new_pool live
  new_pool-IsValid blank n h = (
    record {
      cells = λ _. record { object = blank; is_free = true };
      size = n;
      next_free_index = 0;
    },
    ground arith,
    record { in_range = h; next_is_free = refl },
    live_from_free blank n 0,
    refl,
  )

  -- Everything that `deallocate` does when it returns.
  pub record Deallocated (p : MemPool T) (i : ℕ) (q : MemPool T) : Type ℓ where
    pub same_objects : (j : ℕ) → read q j ≡ read p j
    pub freed : (q.cells i).is_free ≡ true
    pub others : (j : ℕ) → j ≢ i → (q.cells j).is_free ≡ (p.cells j).is_free
    pub same_next : q.next_free_index ≡ p.next_free_index
    pub same_size : q.size ≡ p.size
    pub one_less : live q + 1 ≡ live p
    pub still_valid : IsValid p → IsValid q

  -- `deallocate` of a cell in use frees that cell alone and keeps every object's bytes.
  pub deallocate-Deallocated :
      (p : MemPool T) (i : ℕ)
      → i < p.size
      → (p.cells i).is_free ≡ false
      → (q : MemPool T) × (deallocate p i ≡ ok q) × Deallocated p i q
  unfolding deallocate live
  deallocate-Deallocated p i h used = (
    record p { cells = update p.cells i freed_block },
    ground arith,
    record {
      same_objects = λ j. ground arith;
      freed = ground arith;
      others = λ j ne. ground arith;
      same_next = refl;
      same_size = refl;
      one_less =
          ground
            (arith, live_from-update p.cells p.size 0 i freed_block (omega arith) (omega arith));
      still_valid =
          λ w. record { in_range = w.in_range; next_is_free = ground (arith, w.next_is_free) };
    },
  )
    where
      freed_block : ObjectBlock T
      freed_block = record { object = (p.cells i).object; is_free = true }

  -- A double free, and a pointer outside the pool, abort the process.
  pub deallocate_fails :
      (p : MemPool T) (i : ℕ)
      → (p.size ≤ i) ⊎ ((p.cells i).is_free ≡ true)
      → deallocate p i ≡ err assert_failed
  unfolding deallocate
  deallocate_fails p i (inl h) = ground arith
  deallocate_fails p i (inr h) = ground arith

  live_from-eq :
      (f g : ℕ → ObjectBlock T) (n i : ℕ)
      → ((j : ℕ) → (f j).is_free ≡ (g j).is_free)
      → live_from f n i ≡ live_from g n i
  live_from-eq f g zero i h = refl
  live_from-eq f g (suc n) i h = ground (arith, h i, live_from-eq f g n (suc i) h)

  -- The count depends on the marks only.
  pub live-eq :
      (p q : MemPool T)
      → p.size ≡ q.size
      → ((j : ℕ) → (p.cells j).is_free ≡ (q.cells j).is_free)
      → live p ≡ live q
  unfolding live
  live-eq p q e h = ap (λ n. live_from p.cells n 0) e ∙ live_from-eq p.cells q.cells q.size 0 h

  -- Whatever the pool, a call of `deallocate` that returns has freed one cell.
  pub deallocate-Ensures :
      (p : MemPool T) (i : ℕ)
      → Ensures
          (λ q.
            (live q + 1 ≡ live p)
            × (q.size ≡ p.size)
            × ((q.cells i).is_free ≡ true)
            × ((j : ℕ) → j ≢ i → (q.cells j).is_free ≡ (p.cells j).is_free))
          (deallocate p i)
  deallocate-Ensures p i = elim (free-cases p i) [
    | inl bad ↦ rw (deallocate_fails p i bad) (faults tt)
    | inr (h, used) ↦
        let (q, e, d) = deallocate-Deallocated p i h used in
        rw e (returns (d.one_less, d.same_size, d.freed, d.others))
  ]

  -- A call of `allocate` on a valid pool that returns has taken one cell.
  pub allocate-Ensures :
      (p : MemPool T) (v : T) → IsValid p → Ensures (λ r. Allocated p v r.0 r.1) (allocate p v)
  allocate-Ensures p v w = elim (allocate-Outcome p v w) [
    | inl (q, e, a) ↦ rw e (returns a)
    | inr (e, _) ↦ rw e (faults tt)
  ]

  live_from-le : (f : ℕ → ObjectBlock T) (n i : ℕ) → live_from f n i ≤ n
  live_from-le f zero i = omega arith
  live_from-le f (suc n) i = ground (arith, live_from-le f n (suc i))

  pub live_le-size : (p : MemPool T) → live p ≤ p.size
  unfolding live
  live_le-size p = live_from-le p.cells p.size 0
