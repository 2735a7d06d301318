-- ===== src/Client/Int32.antt =====
-- `int32_t` and the conversions that the position keeper and the risk manager make.
use trading_system.Prelude.{ℕ, ◌-◌, ◌*◌, ◌%◌, ◌^◌, Bool, ltb, leb, if◌then◌else◌}
use trading_system.Prelude.Int.{ℤ, pos, negsuc, pos_part, neg_part}
use trading_system.Types.{Side, side_invalid, buy, sell, side_max}

-- The integer that a 32-bit pattern stands for: `static_cast<int32_t>(qty)`.
abbrev pub signed32 : ℕ → ℤ
signed32 w = if leb (2 ^ 31) w then negsuc (2 ^ 32 - 1 - w) else pos w

-- `side_value` as a `uint32_t`.
abbrev side_pattern : Side → ℕ
side_pattern side_invalid = 0
side_pattern buy = 1
side_pattern sell = 2 ^ 32 - 1
side_pattern side_max = 2

-- `volume_ * side_value`: the product of a `uint32_t` and an `int` is a `uint32_t`, and it is stored
-- in an `int32_t`.
abbrev pub signed_volume : ℕ → Side → ℤ
signed_volume volume s = signed32 (volume * side_pattern s % 2 ^ 32)

-- `std::abs`, of an integer whose absolute value fits.
abbrev pub abs : ℤ → ℕ
abs (pos n) = n
abs (negsuc n) = neg_part (negsuc n)

abbrev pub is_zero : ℤ → Bool
is_zero a = leb (abs a) 0

abbrev pub is_positive : ℤ → Bool
is_positive a = ltb 0 (pos_part a)

abbrev pub is_negative : ℤ → Bool
is_negative a = ltb 0 (neg_part a)
