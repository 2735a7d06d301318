-- ===== src/SpscQueue/Reading.antt =====
-- What a consumer that has seen a message finds when it releases the slot.
use trading_system.Prelude.{
  ◌+◌, ◌-◌, ◌%◌, ◌>>◌, not, require, assert_failed, sym, ◌≡◌, ◌≢◌, refl, ap, ◌∙◌, ◌||◌, Bool, true,
  false, none, some, ◌∷◌, ok, arith, ◌==◌, if◌then◌else◌,
}
use trading_system.SpscQueue.{SpscQueue, get_next_read, update_next_read}
use trading_system.SpscQueue.Refine.{IsValid, contents, contents-update_next_read}

module _ {ℓ} {T : Type ℓ} where
  some-injective : {a b : T} → some a ≡ some b → a ≡ b
  some-injective h = cc

  ok-injective : {a b : SpscQueue T} → ok a ≡ ok b → a ≡ b
  ok-injective h = cc

  pub seen-oldest :
      (q : SpscQueue T) (v : T)
      → get_next_read q ≡ some v
      → (q.num_elements ≢ 0) × (q.store q.next_read_idx ≡ v)
  unfolding get_next_read
  seen-oldest q v h = by_test _ refl h
    where
      by_test :
          (b : Bool)
          → (q.num_elements == 0 || q.next_read_idx == q.next_write_idx) ≡ b
          → (if b then none else some (q.store q.next_read_idx)) ≡ some v
          → (q.num_elements ≢ 0) × (q.store q.next_read_idx ≡ v)
      by_test true e k = cc
      by_test false e k = (ground arith, some-injective k)

  -- A message that was seen on a valid queue is the oldest, and the next release drops just it.
  pub update_next_read-seen :
      (q : SpscQueue T) (v : T)
      → IsValid q
      → get_next_read q ≡ some v
      → (r : SpscQueue T) × (update_next_read q ≡ ok r) × IsValid r × (contents q ≡ v ∷ contents r)
  update_next_read-seen q v w h =
      let (some_left, is_v) = seen-oldest q v h in
      let (r, released, w1, split, _, _) = contents-update_next_read q w some_left in
      (r, released, w1, split ∙ ap (λ x. x ∷ contents r) is_v)

  -- A release does not touch the slots.
  pub update_next_read-store : (q r : SpscQueue T) → update_next_read q ≡ ok r → r.store ≡ q.store
  unfolding update_next_read
  update_next_read-store q r h = by_test _ refl h
    where
      by_test :
          (b : Bool)
          → (q.num_elements == 0) ≡ b
          → (require (not b) assert_failed
              >> ok (record q {
                next_read_idx = (q.next_read_idx + 1) % q.capacity;
                num_elements = q.num_elements - 1;
              }))
            ≡ ok r
          → r.store ≡ q.store
      by_test true e k = cc
      by_test false e k = sym (ap (λ x. x.store) (ok-injective k))
