-- ===== src/Client/RandomTrader/Samples.antt =====
-- A trader that is due to cancel its only order.
use trading_system.Prelude.{refl, true, [], ◌∷◌, arith}
use trading_system.Messages.{MeClientRequest, blank_request}
use trading_system.Client.RandomTrader.{RandomTrader, Draws, Tick}
use trading_system.Client.RandomTrader.Bounds.{IsValid}

abbrev pub asked_for : MeClientRequest
asked_for = record blank_request { client_id = 3; ticker_id = 1; price = 150; qty = 5 }

abbrev pub due : RandomTrader
due = record {
  client_id = 3;
  next_order_id = 3001;
  order_count = 1;
  next_action_time = 10;
  cancel_next = true;
  requests = asked_for ∷ [];
  ticker_base_price = λ _. 140;
  sent = [];
}

abbrev pub some_draws : Draws
some_draws = record { ticker = 9; price = 4; qty = 7; side = 1 }

pub due-IsValid : IsValid due
due-IsValid = record {
  base_above = λ t. omega arith;
  base_below = λ t. omega arith;
  asked = (
    record {
      of_client = refl;
      known = omega arith;
      price_above = omega arith;
      price_below = omega arith;
      qty_above = omega arith;
      qty_below = omega arith;
    },
    tt,
  );
  counted = refl;
  few = omega arith;
  cancels_something = λ _. omega arith;
}

abbrev pub at_20 : Tick
at_20 = record { now = 20; later = 25; draws = some_draws; cancel_draw = 6 }

-- After the first ten seconds.
abbrev pub at_start : Tick
at_start = record { now = 10000000000; later = 10000000005; draws = some_draws; cancel_draw = 6 }
