-- ===== src/Client/RandomTrader/Tests.antt =====
-- The random trader at work.
use trading_system.Prelude.{◌+◌, ◌≤◌, [], ◌∷◌, Returns}
use trading_system.Client.RandomTrader.Samples.{due, due-IsValid, at_20, at_start}
use trading_system.Client.RandomTrader.{on_timer, new_trader}
use trading_system.Client.RandomTrader.Bounds.{
  AllInBounds, placements, Acted, on_timer-Acted, run_timers, run_timers_new,
}

on_timer-Acted_example : Returns (Acted due) (on_timer due at_20)
on_timer-Acted_example = on_timer-Acted due at_20 due-IsValid

run_timers_new_example :
    Returns
      (λ r. AllInBounds 3 r.sent × (placements r.sent ≤ 10000))
      (run_timers (new_trader 3 0 (λ t. t + 240)) (at_start ∷ at_20 ∷ []))
run_timers_new_example = run_timers_new 3 0 (λ t. t + 240) (at_start ∷ at_20 ∷ [])
