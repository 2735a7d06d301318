-- ===== src/MemPool/Tests.antt =====
-- Pools at work.
use trading_system.Prelude.{
  ℕ, zero, suc, ◌≡◌, refl, true, false, Result, err, ◌>>=◌, arith, assert_failed,
}
use trading_system.MemPool.{MemPool, new_pool, allocate, update_next_free, first_free}
use trading_system.MemPool.Laws.{IsValid, Outcome, allocate-Outcome}

abbrev three_free : MemPool ℕ
three_free = record {
  cells = λ _. record { object = 0; is_free = true };
  size = 3;
  next_free_index = 0;
}

abbrev first_used : MemPool ℕ
first_used = record {
  cells = λ i. elim i [
    | zero ↦ record { object = 7; is_free = false }
    | suc _ ↦ record { object = 0; is_free = true }
  ];
  size = 3;
  next_free_index = 1;
}

three_free-IsValid : IsValid three_free
three_free-IsValid = record { in_range = omega arith; next_is_free = refl }

-- The second object of a pool of two does not fit.
two_of_two : Result (ℕ × MemPool ℕ)
two_of_two = do p ← new_pool 0 2; (i, q) ← allocate p 5; allocate q 6

pool_of_two_holds_one : two_of_two ≡ err assert_failed
unfolding two_of_two new_pool allocate update_next_free first_free
pool_of_two_holds_one = refl

allocate-Outcome_example : Outcome three_free 5 (allocate three_free 5)
allocate-Outcome_example = allocate-Outcome three_free 5 three_free-IsValid
