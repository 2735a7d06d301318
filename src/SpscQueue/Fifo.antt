-- ===== src/SpscQueue/Fifo.antt =====
-- What a queue of the program promises: a first-in first-out list of at most `room` messages.
use trading_system.Prelude.{ℕ, ◌<◌, List, [], ◌∷◌, ◌++◌, Option, none, some, length}

pub data Op {ℓ} (T : Type ℓ) : Type ℓ where
  put : T → Op T
  take : Op T

module _ {ℓ} {T : Type ℓ} where
  abbrev pub rest : List T → List T
  rest [] = []
  rest (x ∷ xs) = xs

  abbrev pub oldest : List T → Option T
  oldest [] = none
  oldest (x ∷ xs) = some x

  -- What each `take` of a sequence of calls finds.
  unfoldable pub run : List T → List (Op T) → List (Option T)
  run xs [] = []
  run xs (put v ∷ ops) = run (xs ++ (v ∷ [])) ops
  run xs (take ∷ ops) = oldest xs ∷ run (rest xs) ops

  -- Each `put` finds fewer than `room` messages.
  abbrev pub Fits : ℕ → List T → List (Op T) → Type 0
  Fits room xs [] = Unit {0}
  Fits room xs (put v ∷ ops) = (length xs < room) × Fits room (xs ++ (v ∷ [])) ops
  Fits room xs (take ∷ ops) = Fits room (rest xs) ops
