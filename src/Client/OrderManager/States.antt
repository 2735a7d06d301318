-- ===== src/Client/OrderManager/States.antt =====
-- The life of an order of the order manager, as a state machine.
use trading_system.Prelude.{
  ℕ, ◌+◌, ◌%◌, ◌^◌, ◌&&◌, ◌++◌, false, sym, ◌∙◌, ◌≡◌, refl, inl, inr, List, [], ◌∷◌, Result, ok,
  ◌>>=◌, lt→ltb, Bool-cases, ◌==◌, arith, ◌<◌, ◌≢◌,
}
use trading_system.Types.{Side, buy, sell, side_to_index, me_max_tickers}
use trading_system.Messages.{ClientRequestType}
use trading_system.Client.RiskManager.{RiskCheckResult}
use trading_system.Client.OrderManager.{
  OmOrderState, OrderManager, new_manager, order_of, new_order, cancel_order, move_order,
  move_orders,
}

-- The entries of the other instruments and sides are as they were, and so is the client.
pub record Spares (m : OrderManager) (t : ℕ) (s : Side) (m' : OrderManager) : Type 0 where
  pub client : m'.client_id ≡ m.client_id
  pub others :
      (u i : ℕ)
      → (u == t && i == side_to_index s) ≡ false
      → m'.ticker_side_order u i ≡ m.ticker_side_order u i

-- One request was sent, for a new order; the entry holds that order, on its way.
pub record Placed (m : OrderManager) (t price : ℕ) (s : Side) (qty : ℕ) (m' : OrderManager)
    : Type 0 where
  pub sent :
      m'.sent
      ≡ m.sent
        ++ (record {
          type = ClientRequestType.new;
          client_id = m.client_id;
          ticker_id = t;
          order_id = m.next_order_id;
          side = s;
          price = price;
          qty = qty;
        }
            ∷ [])
  pub entry : order_of m' t s ≡ record {
    ticker_id = t;
    order_id = m.next_order_id;
    side = s;
    price = price;
    qty = qty;
    order_state = OmOrderState.pending_new;
  }
  pub next : m'.next_order_id ≡ (m.next_order_id + 1) % 2 ^ 64
  pub spared : Spares m t s m'

-- One request was sent, to cancel the order of the entry; the entry waits for the cancel.
pub record Withdrawn (m : OrderManager) (t : ℕ) (s : Side) (m' : OrderManager) : Type 0 where
  pub sent :
      m'.sent
      ≡ m.sent
        ++ (record {
          type = ClientRequestType.cancel;
          client_id = m.client_id;
          ticker_id = (order_of m t s).ticker_id;
          order_id = (order_of m t s).order_id;
          side = (order_of m t s).side;
          price = (order_of m t s).price;
          qty = (order_of m t s).qty;
        }
            ∷ [])
  pub entry :
      order_of m' t s ≡ record (order_of m t s) { order_state = OmOrderState.pending_cancel }
  pub next : m'.next_order_id ≡ m.next_order_id
  pub spared : Spares m t s m'

-- What `moveOrder` does to the order of instrument `t` and side `s`.
pub data Move (check : ℕ → Side → ℕ → RiskCheckResult) (m : OrderManager) (t price : ℕ) (s : Side)
    (qty : ℕ) (m' : OrderManager) : Type 0 where
  -- a dead order within the risk limits is placed anew
  places :
      (order_of m t s).order_state ≡ OmOrderState.dead
      → check t s qty ≡ RiskCheckResult.allowed
      → Placed m t price s qty m'
      → Move check m t price s qty m'
  -- a live order at another price is cancelled
  cancels :
      (order_of m t s).order_state ≡ OmOrderState.live
      → (order_of m t s).price ≢ price
      → Withdrawn m t s m'
      → Move check m t price s qty m'
  -- nothing happens in every other case, and only then
  waits :
      ((order_of m t s).order_state ≡ OmOrderState.dead → check t s qty ≢ RiskCheckResult.allowed)
      → ((order_of m t s).order_state ≡ OmOrderState.live → (order_of m t s).price ≡ price)
      → m' ≡ m
      → Move check m t price s qty m'

new_order-Placed :
    (m : OrderManager) (t price : ℕ) (s : Side) (qty : ℕ)
    → Placed m t price s qty (new_order m t s price qty)
unfolding new_order
new_order-Placed m t price s qty = record {
  sent = refl;
  entry = ground arith;
  next = refl;
  spared = record { client = refl; others = λ u i n. ground (arith, n) };
}

cancel_order-Withdrawn :
    (m : OrderManager) (t : ℕ) (s : Side) → Withdrawn m t s (cancel_order m t s)
unfolding cancel_order
cancel_order-Withdrawn m t s = record {
  sent = refl;
  entry = ground arith;
  next = refl;
  spared = record { client = refl; others = λ u i n. ground (arith, n) };
}

-- No order has left the state in which the constructor puts it.
abbrev pub IsBlank : OrderManager → Type 0
IsBlank m = (t i : ℕ) → (m.ticker_side_order t i).order_state ≡ OmOrderState.invalid

-- Each call names an instrument of the table.
abbrev pub Within : List (ℕ × ℕ × ℕ × ℕ) → Type 0
Within [] = Unit {0}
Within ((t, bid, ask, qty) ∷ calls) = (t < me_max_tickers) × Within calls

module _ (check : ℕ → Side → ℕ → RiskCheckResult) where
  -- `moveOrder` sends a request for a new order exactly when the order of that instrument and side is
  -- dead and the risk manager allows the quantity: with the price and the quantity asked for, under
  -- the next identifier, and the entry then holds that order as pending. It sends a cancel of the
  -- order of the entry exactly when that is live at another price, and the entry is then pending
  -- cancel. Otherwise it leaves the manager as it is; other entries are never touched.
  pub move_order-Move :
      (m : OrderManager) (t price : ℕ) (s : Side) (qty : ℕ)
      → Move check m t price s qty (move_order check m t price s qty)
  unfolding move_order
  move_order-Move m t price s qty = by_state (order_of m t s).order_state refl
    where
      refused :
          (r : RiskCheckResult)
          → check t s qty ≡ r
          → r ≢ RiskCheckResult.allowed
          → (order_of m t s).order_state ≡ OmOrderState.dead
          → Move check m t price s qty m
      refused r c n e = waits (λ _ a. n (sym c ∙ a)) (λ l. cc) refl

      elsewhere :
          (st : OmOrderState)
          → (order_of m t s).order_state ≡ st
          → st ≢ OmOrderState.dead
          → st ≢ OmOrderState.live
          → Move check m t price s qty m
      elsewhere st e not_dead not_live =
          waits (λ d _. not_dead (sym e ∙ d)) (λ l. absurd (not_live (sym e ∙ l))) refl

      by_check :
          (r : RiskCheckResult)
          → check t s qty ≡ r
          → (order_of m t s).order_state ≡ OmOrderState.dead
          → Move check m t price s qty (move_order check m t price s qty)
      by_check RiskCheckResult.allowed c e =
          rw (e, c, move_order) (places e c (new_order-Placed m t price s qty))
      by_check RiskCheckResult.invalid c e = rw (e, c, move_order) (refused _ c (λ q. cc) e)
      by_check RiskCheckResult.order_too_large c e = rw (e, c, move_order) (refused _ c (λ q. cc) e)
      by_check RiskCheckResult.position_too_large c e =
          rw (e, c, move_order) (refused _ c (λ q. cc) e)
      by_check RiskCheckResult.loss_too_large c e = rw (e, c, move_order) (refused _ c (λ q. cc) e)

      by_state :
          (st : OmOrderState)
          → (order_of m t s).order_state ≡ st
          → Move check m t price s qty (move_order check m t price s qty)
      by_state OmOrderState.live e = elim (Bool-cases ((order_of m t s).price == price)) [
        | inl same ↦ rw (e, same, move_order) (waits (λ d _. cc) (λ _. ground arith) refl)
        | inr other ↦
            rw (e, other, move_order) (cancels e (ground arith) (cancel_order-Withdrawn m t s))
      ]
      by_state OmOrderState.dead e = by_check (check t s qty) refl e
      by_state OmOrderState.invalid e = rw (e, move_order) (elsewhere _ e (λ q. cc) (λ q. cc))
      by_state OmOrderState.pending_new e = rw (e, move_order) (elsewhere _ e (λ q. cc) (λ q. cc))
      by_state OmOrderState.pending_cancel e =
          rw (e, move_order) (elsewhere _ e (λ q. cc) (λ q. cc))

  move_order_blank :
      (m : OrderManager) (t price : ℕ) (s : Side) (qty : ℕ)
      → IsBlank m
      → move_order check m t price s qty ≡ m
  unfolding move_order
  move_order_blank m t price s qty blank = rw (blank t (side_to_index s), move_order)

  -- One call of `moveOrders` for each (instrument, bid price, ask price, quantity).
  pub run_moves : OrderManager → List (ℕ × ℕ × ℕ × ℕ) → Result OrderManager
  run_moves m [] = ok m
  run_moves m ((t, bid, ask, qty) ∷ calls) =
      move_orders check m t bid ask qty >>= λ m1. run_moves m1 calls

  -- Before the first response arrives, no sequence of calls of `moveOrders` within the table sends a
  -- request or changes the manager: an order that was never placed is not DEAD but INVALID.
  pub run_moves_blank :
      (calls : List (ℕ × ℕ × ℕ × ℕ)) (m : OrderManager)
      → IsBlank m
      → Within calls
      → run_moves m calls ≡ ok m
  unfolding run_moves move_orders
  run_moves_blank [] m blank w = refl
  run_moves_blank ((t, bid, ask, qty) ∷ calls) m blank (h, w) =
      rw
        (
          lt→ltb t me_max_tickers h,
          move_order_blank m t bid buy qty blank,
          move_order_blank m t ask sell qty blank,
        )
        (run_moves_blank calls m blank w)

-- The constructed manager is blank and has sent nothing.
pub new_manager-IsBlank :
    (client : ℕ) → IsBlank (new_manager client) × ((new_manager client).sent ≡ [])
unfolding new_manager
new_manager-IsBlank client = (λ t i. refl, refl)
