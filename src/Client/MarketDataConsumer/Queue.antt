-- ===== src/Client/MarketDataConsumer/Queue.antt =====
-- `std::map<size_t, MEMarketUpdate>`: the entries by rising number.
use trading_system.Prelude.{
  ℕ, Bool, true, false, ◌||◌, List, [], ◌∷◌, Option, none, some, ltb, ◌==◌, if◌then◌else◌,
}
use trading_system.Messages.{MeMarketUpdate}

abbrev pub QueuedMarketUpdate : Type 0
QueuedMarketUpdate = List (ℕ × MeMarketUpdate)

-- `queue[n] = u`.
unfoldable pub insert : ℕ → MeMarketUpdate → QueuedMarketUpdate → QueuedMarketUpdate
insert n u [] = (n, u) ∷ []
insert n u ((m, v) ∷ q) =
    if ltb n m then (n, u) ∷ (m, v) ∷ q else (if n == m then (n, u) ∷ q else (m, v) ∷ insert n u q)

unfoldable pub contains : ℕ → QueuedMarketUpdate → Bool
contains n [] = false
contains n ((m, v) ∷ q) = m == n || contains n q

unfoldable pub is_empty : QueuedMarketUpdate → Bool
is_empty [] = true
is_empty (e ∷ q) = false

-- `begin()->second` and `rbegin()->second`.
unfoldable pub first_update : QueuedMarketUpdate → Option MeMarketUpdate
first_update [] = none
first_update ((m, v) ∷ q) = some v

unfoldable pub last_update : QueuedMarketUpdate → Option MeMarketUpdate
last_update [] = none
last_update ((m, v) ∷ []) = some v
last_update (e ∷ f ∷ q) = last_update (f ∷ q)
