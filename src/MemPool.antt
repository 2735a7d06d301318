-- ===== src/MemPool.antt =====
-- include/utils/mem_pool.hpp: a pool of cells, each free or holding an object. A pointer into the
-- pool is the index of its cell; `assert` is kept, as the build does not define NDEBUG.
pub mod Laws
mod Tests
use trading_system.Prelude.{
  ℕ, zero, suc, Bool, true, false, Option, none, some, Result, ok, err, ◌>>=◌, ◌>>◌, require,
  out_of_range, assert_failed, ltb, not, if◌then◌else◌, update,
}

pub record ObjectBlock {ℓ} (T : Type ℓ) : Type ℓ where
  pub object : T
  pub is_free : Bool

-- `cells` is read below `size` only.
pub record MemPool {ℓ} (T : Type ℓ) : Type ℓ where
  pub cells : ℕ → ObjectBlock T
  pub size : ℕ
  pub next_free_index : ℕ

module _ {ℓ} {T : Type ℓ} where
  -- The lowest free index among the `n` indices from `i` on.
  pub first_free : (ℕ → ObjectBlock T) → ℕ → ℕ → Option ℕ
  first_free cells zero i = none
  first_free cells (suc n) i =
      let rest = first_free cells n (suc i) in if (cells i).is_free then some i else rest

  -- With no free cell left the process is aborted.
  pub update_next_free : MemPool T → Result (MemPool T)
  update_next_free p = elim (first_free p.cells p.size 0) [
    | none ↦ err assert_failed
    | some i ↦ ok (record p { next_free_index = i })
  ]

  -- `MemPool(numCells)`, over the default object. The constructor reads `cells[0]`.
  unfoldable pub new_pool : T → ℕ → Result (MemPool T)
  new_pool blank n = do
    require (ltb 0 n) out_of_range
    ok (record {
      cells = λ _. record { object = blank; is_free = true };
      size = n;
      next_free_index = 0;
    })

  -- `cells[i] = {v, false}`.
  abbrev pub occupy : MemPool T → ℕ → T → MemPool T
  occupy p i v = record p { cells = update p.cells i (record { object = v; is_free = false }) }

  -- The new object's cell, and the pool after the call.
  unfoldable pub allocate : MemPool T → T → Result (ℕ × MemPool T)
  unfolding update_next_free first_free
  allocate p v = do
    require (ltb p.next_free_index p.size) out_of_range
    q ← update_next_free (occupy p p.next_free_index v)
    ok (p.next_free_index, q)

  unfoldable pub deallocate : MemPool T → ℕ → Result (MemPool T)
  deallocate p i = do
    require (ltb i p.size) assert_failed
    require (not (p.cells i).is_free) assert_failed
    ok (record p {
      cells = update p.cells i (record { object = (p.cells i).object; is_free = true });
    })

  -- `*p` and `*p = v` through a pointer into the pool. Neither looks at `is_free`.
  abbrev pub read : MemPool T → ℕ → T
  read p i = (p.cells i).object

  abbrev pub write : MemPool T → ℕ → T → MemPool T
  write p i v = record p {
    cells = update p.cells i (record { object = v; is_free = (p.cells i).is_free });
  }
