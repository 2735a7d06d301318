-- ===== src/Exchange/OrderBook/Priority/Tests.antt =====
-- Orders and a cancel that come to a book with two levels of sells.
use trading_system.Prelude.{inr, ◌≡◌, refl, [], ◌∷◌, arith, Returns, inl}
use trading_system.Types.{buy, sell}
use trading_system.Exchange.OrderBook.Handlers.{check_for_match, cancel, rest_order}
use trading_system.Exchange.OrderBook.Shape.Around.{queue_of, remaining}
use trading_system.Exchange.OrderBook.Shape.Removal.{Leaves}
use trading_system.Exchange.OrderBook.Shape.Withdrawal.{cancel-Sides}
use trading_system.Exchange.OrderBook.Shape.Queueing.{Queued, rest_order-Queued}
use trading_system.Exchange.OrderBook.Shape.Founding.{Founded, rest_order-Founded}
use trading_system.Exchange.OrderBook.Priority.{matched, view}
use trading_system.Exchange.OrderBook.Priority.Refine.{check_for_match-Matches}
use trading_system.Exchange.OrderBook.Priority.Round.{Matches}
use trading_system.Exchange.OrderBook.Priority.Samples.{
  sells, two_levels, wide_buyer, seller, two_levels-Sides, orders-IsValid, levels-IsValid,
  orders_room, levels_room,
}

check_for_match-Matches_example :
    Returns
      (Matches two_levels wide_buyer 11 sell buy sells [])
      (check_for_match two_levels wide_buyer 11)
check_for_match-Matches_example =
    check_for_match-Matches two_levels wide_buyer 11 sells [] (inl refl) two_levels-Sides

-- By priority a buy of eleven takes both orders at 100 and two of the six at 102.
matched_in_order : (matched wide_buyer 11 (view two_levels sells)).0 ≡ 0
matched_in_order = refl

cancel-Sides_example :
    Returns
      (Leaves two_levels sell buy (remaining [] 0 (1 ∷ []) (queue_of 1 (2 ∷ []) ∷ [])) [])
      (cancel two_levels 1 0)
cancel-Sides_example =
    cancel-Sides [] 0 0 [] (1 ∷ []) (queue_of 1 (2 ∷ []) ∷ []) [] refl two_levels-Sides

rest_order-Queued_example :
    Returns
      (Queued two_levels (seller 100) 7 sell buy [] 0 0 (1 ∷ []) 3 (queue_of 1 (2 ∷ []) ∷ []) [])
      (rest_order two_levels (seller 100) 7 7)
rest_order-Queued_example =
    rest_order-Queued (seller 100) 7 7 [] 0 0 (1 ∷ []) (queue_of 1 (2 ∷ []) ∷ []) [] refl
      two_levels-Sides refl refl (omega arith) (omega arith) refl orders-IsValid orders_room

rest_order-Founded_example :
    Returns
      (Founded two_levels (seller 101) 7 sell buy sells 2 3 [])
      (rest_order two_levels (seller 101) 7 7)
rest_order-Founded_example =
    rest_order-Founded (seller 101) 7 7 sells [] (inr refl) refl two_levels-Sides refl refl
      (omega arith) (omega arith) refl orders-IsValid orders_room levels-IsValid levels_room
