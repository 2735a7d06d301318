-- ===== src/Logger/Tests.antt =====
-- A logger with a queue of two slots.
use mathlib.Core.List.{flatten}
use trading_system.Prelude.{ℕ, ◌≡◌, refl, ◌⊎◌, List, [], ◌∷◌, arith}
use trading_system.SpscQueue.{new_queue, push, get_next_read, update_next_read}
use trading_system.SpscQueue.Refine.{contents-push, new_queue-IsValid}
use trading_system.Logger.{Logger, new_logger, log, Step, push_val, flush, Reach, start, later}
use trading_system.Logger.Rendering.{literal, escape, hole, spell, flatten-log}
use trading_system.Logger.Written.{Keeps, Reach-Keeps, text_of}
use trading_system.Logger.Stuck.{Wedged, free_moves, burst_wedges}

-- `log("a%%=%\n", 12)`, with an escape while a value is left.
flatten-log_example :
    flatten (
      log
        (spell (
          literal 97 (λ h. omega arith)
          ∷ escape
          ∷ literal 61 (λ h. omega arith)
          ∷ hole
          ∷ literal 10 (λ h. omega arith)
          ∷ []))
        ((49 ∷ 50 ∷ []) ∷ []))
    ≡ 97 ∷ 37 ∷ 61 ∷ 49 ∷ 50 ∷ 10 ∷ []
flatten-log_example =
    flatten-log
      (literal 97 (λ h. omega arith)
        ∷ escape
        ∷ literal 61 (λ h. omega arith)
        ∷ hole
        ∷ literal 10 (λ h. omega arith)
        ∷ [])
      ((49 ∷ 50 ∷ []) ∷ []) tt

abbrev strings : List (List ℕ)
strings = (97 ∷ []) ∷ (49 ∷ 50 ∷ []) ∷ (10 ∷ []) ∷ []

-- The first string is pushed and written.
abbrev one_pushed : Logger
one_pushed = record {
  file = [];
  logger_queue = push (new_queue [] 2) (97 ∷ []);
  pending = (49 ∷ 50 ∷ []) ∷ (10 ∷ []) ∷ [];
}

abbrev one_written : Logger
one_written = record one_pushed {
  file = 97 ∷ [];
  logger_queue = record (one_pushed.logger_queue) { next_read_idx = 1; num_elements = 0 };
}

one_written-reached : Reach (new_logger 2 strings) one_written
unfolding new_logger push new_queue get_next_read update_next_read
one_written-reached =
    later (later start (push_val refl (λ h. cc) (omega arith))) (flush {s = 97 ∷ []} refl refl)

Reach-Keeps_example : Keeps (flatten strings) one_written
Reach-Keeps_example = Reach-Keeps 2 strings one_written (omega arith) one_written-reached

free_moves_example : ((m : Logger) × Step one_pushed m) ⊎ (text_of one_pushed ≡ one_pushed.file)
unfolding new_queue push
free_moves_example =
    free_moves one_pushed
      (contents-push (new_queue [] 2) (97 ∷ []) (new_queue-IsValid [] 2 (omega arith)).0
        (omega arith)).0
      (omega arith)

burst_wedges_example : (l : Logger) × Reach (new_logger 2 strings) l × Wedged l
burst_wedges_example =
    burst_wedges 2 strings (omega arith) ((λ h. cc), ((λ h. cc), ((λ h. cc), tt))) (omega arith)
