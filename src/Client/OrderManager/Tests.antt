-- ===== src/Client/OrderManager/Tests.antt =====
-- An order manager at work.
use trading_system.Prelude.{ℕ, ◌≡◌, [], ◌∷◌, ok, arith}
use trading_system.Types.{Side, buy}
use trading_system.Client.RiskManager.{RiskCheckResult}
use trading_system.Client.OrderManager.{
  OmOrderState, OrderManager, new_manager, blank_om_order, move_order,
}
use trading_system.Client.OrderManager.States.{
  Move, move_order-Move, run_moves, run_moves_blank, new_manager-IsBlank,
}

abbrev allow_all : ℕ → Side → ℕ → RiskCheckResult
allow_all t s qty = RiskCheckResult.allowed

-- Every order is dead.
abbrev all_dead : OrderManager
all_dead = record {
  client_id = 4;
  ticker_side_order = λ _ _. record blank_om_order { order_state = OmOrderState.dead };
  next_order_id = 1;
  sent = [];
}

move_order-Move_example :
    Move allow_all all_dead 2 100 buy 5 (move_order allow_all all_dead 2 100 buy 5)
move_order-Move_example = move_order-Move allow_all all_dead 2 100 buy 5

run_moves_blank_example :
    run_moves allow_all (new_manager 4) ((2, 100, 101, 5) ∷ (3, 7, 8, 9) ∷ []) ≡ ok (new_manager 4)
run_moves_blank_example =
    run_moves_blank allow_all ((2, 100, 101, 5) ∷ (3, 7, 8, 9) ∷ []) (new_manager 4)
      (new_manager-IsBlank 4).0 (omega arith, (omega arith, tt))
