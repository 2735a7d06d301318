-- ===== src/Types/Names.antt =====
-- The printed names of the enumerations of include/utils/types.hpp, and the parser of `AlgoType`.
use Prim.Native.String.{String}
use text.Mathlib.Text.{◌==◌}
use mathlib.Core.Path.{◌≡◌, refl}
use mathlib.Core.List.{List, [], ◌∷◌}
use trading_system.Prelude.{if◌then◌else◌}
use trading_system.Types.Sides.{Side, side_invalid, buy, sell, side_max}

pub side_to_string : Side → String
side_to_string buy = "BUY"
side_to_string sell = "SELL"
side_to_string side_max = "MAX"
side_to_string side_invalid = "INVALID"

pub data AlgoType : Type 0 where
  algo_invalid random maker taker algo_max : AlgoType

pub algo_type_to_string : AlgoType → String
algo_type_to_string random = "RANDOM"
algo_type_to_string maker = "MAKER"
algo_type_to_string taker = "TAKER"
algo_type_to_string algo_max = "MAX"
algo_type_to_string algo_invalid = "INVALID"

-- The values `static_cast<AlgoType>(i)` for `i` from INVALID to MAX, in order.
abbrev algo_types : List AlgoType
algo_types = algo_invalid ∷ random ∷ maker ∷ taker ∷ algo_max ∷ []

first_named : List AlgoType → String → AlgoType
unfolding algo_type_to_string
first_named [] s = algo_invalid
first_named (a ∷ rest) s = if algo_type_to_string a == s then a else first_named rest s

pub string_to_algo_type : String → AlgoType
unfolding first_named
string_to_algo_type s = first_named algo_types s

-- Every algorithm type is read back from its printed name.
pub string_to_algo_type-algo_type_to_string :
    (a : AlgoType) → string_to_algo_type (algo_type_to_string a) ≡ a
unfolding string_to_algo_type
string_to_algo_type-algo_type_to_string random = refl
string_to_algo_type-algo_type_to_string maker = refl
string_to_algo_type-algo_type_to_string taker = refl
string_to_algo_type-algo_type_to_string algo_max = refl
string_to_algo_type-algo_type_to_string algo_invalid = refl
