-- ===== src/Exchange/FifoSequencer/Tests.antt =====
-- Two requests that came in the wrong order.
use mathlib.Core.List.{Perm}
use mathlib.Core.List.Perm
use trading_system.Prelude.{ℕ, List, [], ◌∷◌, arith, leb, Bool-cases, inl, inr, if◌then◌else◌}
use trading_system.Messages.{blank_request}
use trading_system.SpscQueue.{new_queue}
use trading_system.SpscQueue.Refine.{new_queue-IsValid}
use trading_system.Exchange.FifoSequencer.{
  RecvTimeClientRequest, FifoSequencer, sequence_and_publish,
}
use trading_system.Exchange.FifoSequencer.Publishing.{
  IsAscending, Sorts, Published, sequence_and_publish-Published,
}

place : RecvTimeClientRequest → List RecvTimeClientRequest → List RecvTimeClientRequest
place r [] = r ∷ []
place r (s ∷ rs) =
    let rest = place r rs in if leb r.recv_time s.recv_time then r ∷ s ∷ rs else s ∷ rest

by_insertion : List RecvTimeClientRequest → List RecvTimeClientRequest
by_insertion [] = []
by_insertion (r ∷ rs) = place r (by_insertion rs)

place-perm :
    (r : RecvTimeClientRequest) (rs : List RecvTimeClientRequest) → Perm (place r rs) (r ∷ rs)
unfolding place
place-perm r [] = Perm.rfl
place-perm r (s ∷ rs) = elim (Bool-cases (leb r.recv_time s.recv_time)) [
  | inl e ↦ rw (e, if◌then◌else◌) Perm.rfl
  | inr e ↦ rw (e, if◌then◌else◌) (Perm.trans (Perm.cons s (place-perm r rs)) (Perm.swap r s rs))
]

by_insertion-perm : (rs : List RecvTimeClientRequest) → Perm (by_insertion rs) rs
unfolding by_insertion
by_insertion-perm [] = Perm.rfl
by_insertion-perm (r ∷ rs) =
    Perm.trans (place-perm r (by_insertion rs)) (Perm.cons r (by_insertion-perm rs))

place-IsAscending :
    (r : RecvTimeClientRequest) (rs : List RecvTimeClientRequest)
    → IsAscending rs
    → IsAscending (place r rs)
unfolding place
place-IsAscending r [] h = tt
place-IsAscending r (s ∷ []) h = ground arith
place-IsAscending r (s ∷ t ∷ rs) (le, h) = let ih = place-IsAscending r (t ∷ rs) h in ground arith

by_insertion-IsAscending : (rs : List RecvTimeClientRequest) → IsAscending (by_insertion rs)
unfolding by_insertion
by_insertion-IsAscending [] = tt
by_insertion-IsAscending (r ∷ rs) = place-IsAscending r _ (by_insertion-IsAscending rs)

by_insertion-Sorts : Sorts by_insertion
by_insertion-Sorts = record { keeps = by_insertion-perm; orders = by_insertion-IsAscending }

abbrev received : ℕ → ℕ → RecvTimeClientRequest
received time id = record { recv_time = time; request = record blank_request { order_id = id } }

abbrev two_pending : FifoSequencer
two_pending = record {
  pending_client_requests = received 9 1 ∷ received 4 2 ∷ [];
  incoming_request = new_queue blank_request 5;
}

sequence_and_publish-Published_example :
    Published two_pending (sequence_and_publish by_insertion two_pending)
unfolding new_queue
sequence_and_publish-Published_example =
    sequence_and_publish-Published by_insertion two_pending by_insertion-Sorts
      (new_queue-IsValid blank_request 5 (omega arith)).0 (omega arith)
