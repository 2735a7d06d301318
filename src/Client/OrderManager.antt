-- ===== src/Client/OrderManager.antt =====
-- src/client/order_manager.cpp, include/client/order_manager.hpp and om_order.hpp: at most one order
-- on each side of each instrument, each a small state machine. `States` has its steps.
pub mod States
mod Tests
use Prim.Native.String.{String}
use trading_system.Prelude.{
  ℕ, ◌+◌, ◌%◌, ◌^◌, List, [], ◌∷◌, ◌++◌, Bool, not, Result, ok, ◌>>=◌, ◌>>◌, require, out_of_range,
  ltb, ◌==◌, if◌then◌else◌, update,
}
use trading_system.Types.{
  Side, side_invalid, buy, sell, side_to_index, me_max_tickers, order_id_invalid, ticker_id_invalid,
  price_invalid, qty_invalid,
}
use trading_system.Messages.{
  ClientRequestType, MeClientRequest, ClientResponseType, MeClientResponse,
}
use trading_system.Client.RiskManager.{RiskCheckResult}

pub data OmOrderState : Type 0 where
  invalid pending_new live pending_cancel dead : OmOrderState

pub om_order_state_to_string : OmOrderState → String
om_order_state_to_string OmOrderState.pending_new = "PENDING_NEW"
om_order_state_to_string OmOrderState.live = "LIVE"
om_order_state_to_string OmOrderState.pending_cancel = "PENDING_CANCEL"
om_order_state_to_string OmOrderState.dead = "DEAD"
om_order_state_to_string OmOrderState.invalid = "INVALID"

pub record OmOrder : Type 0 where
  pub ticker_id : ℕ
  pub order_id : ℕ
  pub side : Side
  pub price : ℕ
  pub qty : ℕ
  pub order_state : OmOrderState

abbrev pub blank_om_order : OmOrder
blank_om_order = record {
  ticker_id = ticker_id_invalid;
  order_id = order_id_invalid;
  side = side_invalid;
  price = price_invalid;
  qty = qty_invalid;
  order_state = OmOrderState.invalid;
}

-- `sent` is what went to the trade engine, oldest first.
pub record OrderManager : Type 0 where
  pub client_id : ℕ
  pub ticker_side_order : ℕ → ℕ → OmOrder
  pub next_order_id : ℕ
  pub sent : List MeClientRequest

unfoldable pub new_manager : ℕ → OrderManager
new_manager client = record {
  client_id = client;
  ticker_side_order = λ _ _. blank_om_order;
  next_order_id = 1;
  sent = [];
}

-- `ticker_side_order_[t][sideToIndex(s)]`.
abbrev pub order_of : OrderManager → ℕ → Side → OmOrder
order_of m t s = m.ticker_side_order t (side_to_index s)

abbrev pub set_order_of : OrderManager → ℕ → Side → OmOrder → OrderManager
set_order_of m t s o = record m {
  ticker_side_order =
      update m.ticker_side_order t (update (m.ticker_side_order t) (side_to_index s) o);
}

abbrev pub new_request : OrderManager → ℕ → ℕ → Side → ℕ → MeClientRequest
new_request m t price side qty = record {
  type = ClientRequestType.new;
  client_id = m.client_id;
  ticker_id = t;
  order_id = m.next_order_id;
  side = side;
  price = price;
  qty = qty;
}

abbrev pub cancel_request : OrderManager → OmOrder → MeClientRequest
cancel_request m o = record {
  type = ClientRequestType.cancel;
  client_id = m.client_id;
  ticker_id = o.ticker_id;
  order_id = o.order_id;
  side = o.side;
  price = o.price;
  qty = o.qty;
}

-- The order is the entry of instrument `t` and side `s`.
unfoldable pub new_order : OrderManager → ℕ → Side → ℕ → ℕ → OrderManager
new_order m t s price qty =
    let m1 = record m {
      sent = m.sent ++ (new_request m t price s qty ∷ []);
      next_order_id = (m.next_order_id + 1) % 2 ^ 64;
    } in
    set_order_of m1 t s (record {
      ticker_id = t;
      order_id = m.next_order_id;
      side = s;
      price = price;
      qty = qty;
      order_state = OmOrderState.pending_new;
    })

unfoldable pub cancel_order : OrderManager → ℕ → Side → OrderManager
cancel_order m t s =
    let o = order_of m t s in
    let m1 = record m { sent = m.sent ++ (cancel_request m o ∷ []) } in
    set_order_of m1 t s (record o { order_state = OmOrderState.pending_cancel })

-- `check` is the risk manager's `checkPreTradeRisk`.
module _ (check : ℕ → Side → ℕ → RiskCheckResult) where
  unfoldable pub move_order : OrderManager → ℕ → ℕ → Side → ℕ → OrderManager
  unfolding new_order cancel_order
  move_order m t price s qty = elim (order_of m t s).order_state [
    | OmOrderState.live ↦ if not ((order_of m t s).price == price) then cancel_order m t s else m
    | OmOrderState.dead ↦ elim (check t s qty) [
      | RiskCheckResult.allowed ↦ new_order m t s price qty
      | _ ↦ m
    ]
    | _ ↦ m
  ]

  -- `at(t)` ends the process out of bounds.
  unfoldable pub move_orders : OrderManager → ℕ → ℕ → ℕ → ℕ → Result OrderManager
  unfolding move_order
  move_orders m t bid_price ask_price qty = do
    require (ltb t me_max_tickers) out_of_range
    let m1 = move_order m t bid_price buy qty
    ok (move_order m1 t ask_price sell qty)

-- What a response does to the entry of its instrument and side.
unfoldable pub update_order : OmOrder → MeClientResponse → OmOrder
update_order o r = elim r.type [
  | ClientResponseType.accepted ↦ record o { order_state = OmOrderState.live }
  | ClientResponseType.cancelled ↦ record o { order_state = OmOrderState.dead }
  | ClientResponseType.filled ↦
      if r.left_qty == 0
      then record o { qty = r.left_qty; order_state = OmOrderState.dead }
      else record o { qty = r.left_qty }
  | _ ↦ o
]

unfoldable pub on_order_update : OrderManager → MeClientResponse → Result OrderManager
unfolding update_order
on_order_update m r = do
  require (ltb r.ticker_id me_max_tickers) out_of_range
  ok (set_order_of m r.ticker_id r.side (update_order (order_of m r.ticker_id r.side) r))
