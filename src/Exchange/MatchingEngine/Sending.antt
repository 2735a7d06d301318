-- ===== src/Exchange/MatchingEngine/Sending.antt =====
-- What a list of messages sent to a queue leaves in it.
use mathlib.Core.List.{append-nil, append_assoc}
use trading_system.Prelude.{◌+◌, ◌≤◌, ◌≡◌, sym, ◌∙◌, List, [], ◌∷◌, ◌++◌, arith, length}
use trading_system.SpscQueue.{SpscQueue, push}
use trading_system.SpscQueue.Refine.{
  IsValid, contents, contents-push, num_elements-push, capacity-push,
}
use trading_system.Exchange.MatchingEngine.{push_all}

module _ {ℓ} {T : Type ℓ} where
  -- With room for all of them the messages stand behind what was there, in order.
  pub push_all-contents :
      (q : SpscQueue T) (ms : List T)
      → IsValid q
      → q.num_elements + length ms ≤ q.capacity
      → IsValid (push_all q ms) × (contents (push_all q ms) ≡ contents q ++ ms)
  unfolding push_all
  push_all-contents q [] w room = (w, sym (append-nil (contents q)))
  push_all-contents q (m ∷ ms) w room =
      let (w1, same) = contents-push q m w (omega arith) in
      let (w2, rest) =
        push_all-contents (push q m) ms w1
          (omega (arith, num_elements-push q m, capacity-push q m)) in
      (w2, rest ∙ rw same (append_assoc (contents q) (m ∷ []) ms))
