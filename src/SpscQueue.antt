-- ===== src/SpscQueue.antt =====
-- include/utils/spsc_queue.hpp: a ring of fixed size between one producer and one consumer.
-- Each call is one step here; `Threads` has a step for each shared access inside the calls.
pub mod Fifo
pub mod Refine
pub mod Waiting
pub mod Reading
pub mod Threads
pub mod Interleaving
mod Tests
use trading_system.Prelude.{
  ℕ, suc, ◌+◌, ◌-◌, ◌%◌, Option, none, some, Result, ok, err, ◌>>=◌, ◌>>◌, require, assert_failed,
  Bool, ◌==◌, ◌||◌, not, if◌then◌else◌, update,
}

-- `store` is read below `capacity`, which is `store_.size()`.
pub record SpscQueue {ℓ} (T : Type ℓ) : Type ℓ where
  pub store : ℕ → T
  pub capacity : ℕ
  pub next_read_idx : ℕ
  pub next_write_idx : ℕ
  pub num_elements : ℕ

module _ {ℓ} {T : Type ℓ} where
  unfoldable pub new_queue : T → ℕ → SpscQueue T
  new_queue blank n = record {
    store = λ _. blank;
    capacity = n;
    next_read_idx = 0;
    next_write_idx = 0;
    num_elements = 0;
  }

  -- `q.getNextWrite() = v`.
  pub set_next_write : SpscQueue T → T → SpscQueue T
  set_next_write q v = record q { store = update q.store q.next_write_idx v }

  pub update_next_write : SpscQueue T → SpscQueue T
  update_next_write q = record q {
    next_write_idx = (q.next_write_idx + 1) % q.capacity;
    num_elements = q.num_elements + 1;
  }

  -- The two calls that every producer makes: write the slot, then publish it.
  unfoldable pub push : SpscQueue T → T → SpscQueue T
  unfolding set_next_write update_next_write
  push q v = update_next_write (set_next_write q v)

  -- `none` is the null pointer.
  unfoldable pub get_next_read : SpscQueue T → Option T
  get_next_read q =
      if q.num_elements == 0 || q.next_read_idx == q.next_write_idx
      then none
      else some (q.store q.next_read_idx)

  unfoldable pub update_next_read : SpscQueue T → Result (SpscQueue T)
  update_next_read q = do
    require (not (q.num_elements == 0)) assert_failed
    ok (record q {
      next_read_idx = (q.next_read_idx + 1) % q.capacity;
      num_elements = q.num_elements - 1;
    })

  unfoldable pub size : SpscQueue T → ℕ
  size q = q.num_elements

  unfoldable pub is_empty : SpscQueue T → Bool
  unfolding size
  is_empty q = size q == 0

  -- One round of a consumer's loop: read the next message and release its slot, or find none.
  unfoldable pub take_next : SpscQueue T → Result (Option T × SpscQueue T)
  unfolding get_next_read update_next_read
  take_next q = elim (get_next_read q) [
    | none ↦ ok (none, q)
    | some v ↦ update_next_read q >>= λ q'. ok (some v, q')
  ]
