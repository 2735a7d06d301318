-- ===== src/Client/Samples.antt =====
-- Sample data that the tests of the client share.
use mathlib.Core.Bool.{not}
use trading_system.Prelude.{true, none}
use trading_system.Prelude.Int.{ℤ, pos, ◌+ℤ◌, ◌*ℤ◌, ltb_ℤ}
use trading_system.Client.Double.{Double}
use trading_system.Client.MarketBook.State.{MarketOrderBook, blank_bbo, blank_level, blank_order}
use trading_system.Client.RiskManager.{RiskCfg}

-- Integers in place of `double`.
abbrev pub whole_numbers : Double
whole_numbers = record {
  F = ℤ;
  of_ℕ = pos;
  of_ℤ = λ a. a;
  plus = ◌+ℤ◌;
  minus = λ a b. a;
  times = ◌*ℤ◌;
  divide = λ a b. a;
  less = ltb_ℤ;
  at_least = λ a b. not (ltb_ℤ a b);
  differs = λ a b. not (ltb_ℤ a b);
  quiet_nan = pos 0;
}

abbrev pub limits : RiskCfg whole_numbers
limits = record { max_order_size = 10; max_position = 20; max_loss = pos 0 }

-- No order, and two cells in each pool.
abbrev pub empty_book : MarketOrderBook
empty_book = record {
  ticker_id = 1;
  oid_to_order = λ _. none;
  orders_at_price_pool = record {
    cells = λ _. record { object = blank_level; is_free = true };
    size = 2;
    next_free_index = 0;
  };
  bids_by_price = none;
  asks_by_price = none;
  oid_to_price_level = λ _. none;
  order_pool = record {
    cells = λ _. record { object = blank_order; is_free = true };
    size = 2;
    next_free_index = 0;
  };
  bbo = blank_bbo;
}
