-- ===== src/Types/Sides.antt =====
-- `enum class Side` of include/utils/types.hpp, with its index and its sign.
use Prim.Native.Nat.{ℕ, ◌+◌, ◌-◌, ◌%◌, ◌^◌}
use mathlib.Core.Bool.{Bool, true, false}
use trading_system.Prelude.Int.{ℤ, pos, negsuc}

pub data Side : Type 0 where
  side_invalid buy sell side_max : Side

abbrev pub is_buy : Side → Bool
is_buy buy = true
is_buy _ = false

abbrev pub is_sell : Side → Bool
is_sell sell = true
is_sell _ = false

-- `==` of the enumeration.
abbrev pub same_side : Side → Side → Bool
same_side side_invalid side_invalid = true
same_side buy buy = true
same_side sell sell = true
same_side side_max side_max = true
same_side _ _ = false

-- `static_cast<int>(side)`.
abbrev pub side_to_value : Side → ℤ
side_to_value side_invalid = pos 0
side_to_value buy = pos 1
side_to_value sell = negsuc 0
side_to_value side_max = pos 2

-- `static_cast<size_t>(side)`: -1 becomes 2 ^ 64 - 1.
abbrev side_to_size : Side → ℕ
side_to_size side_invalid = 0
side_to_size buy = 1
side_to_size sell = 2 ^ 64 - 1
side_to_size side_max = 2

-- The sum is a `size_t` and wraps, so SELL has index 0.
abbrev pub side_to_index : Side → ℕ
side_to_index s = (side_to_size s + 1) % 2 ^ 64
