-- ===== src/Types.antt =====
-- include/utils/types.hpp: limits, identifiers, sides and algorithm types.
-- An identifier, a price or a quantity is a number; its width is stated where it matters.
pub mod Printing
mod Names
pub use Names.{
  AlgoType, algo_invalid, random, maker, taker, algo_max, algo_type_to_string, string_to_algo_type,
  side_to_string, string_to_algo_type-algo_type_to_string,
}
pub use Sides.*
mod Sides
use trading_system.Prelude.{ℕ, ◌-◌, ◌*◌, ◌^◌}

abbrev pub me_max_tickers : ℕ
me_max_tickers = 8

abbrev pub me_max_clients_updates : ℕ
me_max_clients_updates = 256 * 1024

abbrev pub me_max_market_updates : ℕ
me_max_market_updates = 256 * 1024

abbrev pub me_max_num_clients : ℕ
me_max_num_clients = 256

abbrev pub me_max_order_ids : ℕ
me_max_order_ids = 1024 * 1024

abbrev pub me_max_price_levels : ℕ
me_max_price_levels = 256

-- `std::numeric_limits<...>::max()` of each identifier type.
abbrev pub order_id_invalid : ℕ
order_id_invalid = 2 ^ 64 - 1

abbrev pub ticker_id_invalid : ℕ
ticker_id_invalid = 2 ^ 32 - 1

abbrev pub client_id_invalid : ℕ
client_id_invalid = 2 ^ 32 - 1

abbrev pub price_invalid : ℕ
price_invalid = 2 ^ 64 - 1

abbrev pub qty_invalid : ℕ
qty_invalid = 2 ^ 32 - 1

abbrev pub priority_invalid : ℕ
priority_invalid = 2 ^ 64 - 1
