-- ===== src/SpscQueue/Waiting.antt =====
-- What a consumer finds at the head of a queue: include/utils/spsc_queue.hpp.
use trading_system.Prelude.{
  ◌<◌, ◌≡◌, ◌≢◌, sym, ap, ◌∙◌, List, [], ◌∷◌, none, some, ok, arith, length,
}
use trading_system.SpscQueue.{SpscQueue, get_next_read, update_next_read}
use trading_system.SpscQueue.Refine.{
  IsValid, contents, contents-update_next_read, get_next_read-contents, length-window,
}

module _ {ℓ} {T : Type ℓ} where
  cons-injective : {x y : T} {xs ys : List T} → x ∷ xs ≡ y ∷ ys → (x ≡ y) × (xs ≡ ys)
  cons-injective h = (cc, cc)

  pub none-waiting : (q : SpscQueue T) → IsValid q → contents q ≡ [] → get_next_read q ≡ none
  none-waiting q w e = get_next_read-contents q w ∙ rw e (ground arith)

  pub next-waiting :
      (q : SpscQueue T) (x : T) (xs : List T)
      → IsValid q
      → q.num_elements < q.capacity
      → contents q ≡ x ∷ xs
      → (r : SpscQueue T) × (get_next_read q ≡ some x)
        × (update_next_read q ≡ ok r)
        × IsValid r
        × (contents r ≡ xs)
        × (r.num_elements < r.capacity)
  next-waiting q x xs w room e =
      let counted = length-window q.store q.capacity q.next_read_idx q.num_elements in
      let ne : q.num_elements ≢ 0 = λ z. omega (arith, z, counted, ap length e) in
      let (r, released, wr, split, fewer, same) = contents-update_next_read q w ne in
      (
        r,
        get_next_read-contents q w ∙ rw e (ground arith),
        released,
        wr,
        sym (cons-injective (sym e ∙ split)).1,
        omega (arith, fewer, same),
      )
