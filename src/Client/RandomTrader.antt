-- ===== src/Client/RandomTrader.antt =====
-- include/client/random_trader.hpp: orders and cancels in turn, from random draws. The draws of
-- `rand()` and the clock are arguments.
pub mod Bounds
pub mod Samples
mod Tests
use trading_system.Prelude.{
  ℕ, ◌+◌, ◌*◌, ◌%◌, ◌^◌, Bool, true, false, ◌||◌, List, [], ◌∷◌, ◌++◌, none, some, Result, ok, err,
  out_of_range, leb, ltb, ◌==◌, if◌then◌else◌, length, get_elem?,
}
use trading_system.Types.{buy, sell, me_max_tickers}
use trading_system.Messages.{ClientRequestType, MeClientRequest}

-- `sent` is what went to `send_request_`, oldest first.
pub record RandomTrader : Type 0 where
  pub client_id : ℕ
  pub next_order_id : ℕ
  pub order_count : ℕ
  pub next_action_time : ℕ
  pub cancel_next : Bool
  pub requests : List MeClientRequest
  pub ticker_base_price : ℕ → ℕ
  pub sent : List MeClientRequest

-- `draws t` is the draw for the base price of instrument `t`. `client_id * 1000` is a 32-bit product.
unfoldable pub new_trader : ℕ → ℕ → (ℕ → ℕ) → RandomTrader
new_trader client now draws = record {
  client_id = client;
  next_order_id = client * 1000 % 2 ^ 32;
  order_count = 0;
  next_action_time = now + 10 * 1000000000;
  cancel_next = false;
  requests = [];
  ticker_base_price = λ t. draws t % 100 + 100;
  sent = [];
}

-- The draws for the instrument, the price, the quantity and the side of a new order.
pub record Draws : Type 0 where
  pub ticker : ℕ
  pub price : ℕ
  pub qty : ℕ
  pub side : ℕ

abbrev pub random_request : RandomTrader → Draws → MeClientRequest
random_request r d = record {
  type = ClientRequestType.new;
  client_id = r.client_id;
  ticker_id = d.ticker % me_max_tickers;
  order_id = r.next_order_id;
  side = if d.side % 2 == 0 then sell else buy;
  price = r.ticker_base_price (d.ticker % me_max_tickers) + d.price % 10 + 1;
  qty = 1 + d.qty % 100 + 1;
}

unfoldable pub send_new : RandomTrader → Draws → RandomTrader
send_new r d = record r {
  next_order_id = (r.next_order_id + 1) % 2 ^ 64;
  order_count = r.order_count + 1;
  cancel_next = true;
  requests = r.requests ++ (random_request r d ∷ []);
  sent = r.sent ++ (random_request r d ∷ []);
}

-- The request drawn is sent again as a cancel. A remainder by zero is out of range.
unfoldable pub send_cancel : RandomTrader → ℕ → Result RandomTrader
send_cancel r draw = elim (get_elem? r.requests (draw % length r.requests)) [
  | none ↦ err out_of_range
  | some q ↦ ok (record r {
    cancel_next = false;
    sent = r.sent ++ (record q { type = ClientRequestType.cancel } ∷ []);
  })
]

-- What one call of `onTimer` reads: the clock at the test and at the end, and the draws.
pub record Tick : Type 0 where
  pub now : ℕ
  pub later : ℕ
  pub draws : Draws
  pub cancel_draw : ℕ

unfoldable pub on_timer : RandomTrader → Tick → Result RandomTrader
unfolding send_new send_cancel
on_timer r k =
    if leb 10000 r.order_count || ltb k.now r.next_action_time
    then ok r
    else (if r.cancel_next
        then (elim (send_cancel r k.cancel_draw) [
          | err e ↦ err e
          | ok r1 ↦ ok (record r1 { next_action_time = k.later + 20 * 1000 * 1000 })
        ])
        else ok (record (send_new r k.draws) { next_action_time = k.later + 20 * 1000 * 1000 }))
