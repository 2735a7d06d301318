-- ===== src/Logger.antt =====
-- include/utils/logger.hpp: `log` cuts a text into strings and queues them, a thread of the logger's own
-- writes them to the file. A character is its code, a text the characters before its terminator; what
-- `operator<<` makes of a value is an argument.
pub mod Rendering
pub mod Written
pub mod Stuck
mod Tests
use trading_system.Prelude.{
  ℕ, ◌<◌, ◌≡◌, ◌≢◌, List, [], ◌∷◌, ◌++◌, map, some, ok, ◌==◌, if◌then◌else◌,
}
use trading_system.SpscQueue.{SpscQueue, new_queue, push, get_next_read, update_next_read}

abbrev pub percent_sign : ℕ
percent_sign = 37

-- `log(const char*)`: the strings that go to `pushVal`.
unfoldable pub log_plain : List ℕ → List (List ℕ)
log_plain text = map (λ c. c ∷ []) text

-- `log(text, value, args...)`, for the values as printed.
unfoldable pub log : List ℕ → List (List ℕ) → List (List ℕ)
unfolding log_plain
log text [] = log_plain text
log [] (v ∷ vs) = []
log (c ∷ []) (v ∷ vs) = if c == percent_sign then v ∷ log_plain [] else ((c ∷ []) ∷ [])
log (c ∷ d ∷ text) (v ∷ vs) =
    let escaped = log text (v ∷ vs) in
    let filled = log (d ∷ text) vs in
    let onward = log (d ∷ text) (v ∷ vs) in
    if c == percent_sign
    then (if d == percent_sign then (d ∷ []) ∷ escaped else v ∷ filled)
    else ((c ∷ []) ∷ onward)

-- The logger between two calls: `pending` is what the logging thread has yet to push.
pub record Logger : Type 0 where
  pub file : List ℕ
  pub logger_queue : SpscQueue (List ℕ)
  pub pending : List (List ℕ)

-- The constructor, with a queue of `capacity` slots, before the strings of `log`.
unfoldable pub new_logger : ℕ → List (List ℕ) → Logger
new_logger capacity strings = record {
  file = [];
  logger_queue = new_queue [] capacity;
  pending = strings;
}

-- What either thread may do next. While the queue is full `pushVal` sleeps, and while it finds nothing
-- `flushQueue` does: no step.
pub data Step (l : Logger) : Logger → Type 0 where
  -- `pushVal` of an empty string.
  skip : {ps : List (List ℕ)} → l.pending ≡ [] ∷ ps → Step l (record l { pending = ps })
  -- `pushVal` of any other, past its loop.
  push_val :
      {s : List ℕ} {ps : List (List ℕ)}
      → l.pending ≡ s ∷ ps
      → s ≢ []
      → l.logger_queue.num_elements < l.logger_queue.capacity
      → Step l (record l { logger_queue = push l.logger_queue s; pending = ps })
  -- One round of the loop of `flushQueue`.
  flush :
      {s : List ℕ} {q : SpscQueue (List ℕ)}
      → get_next_read l.logger_queue ≡ some s
      → update_next_read l.logger_queue ≡ ok q
      → Step l (record l { file = l.file ++ s; logger_queue = q })

pub data Reach (l : Logger) : Logger → Type 0 where
  start : Reach l l
  later : {m n : Logger} → Reach l m → Step m n → Reach l n
