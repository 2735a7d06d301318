-- ===== src/Types/Printing.antt =====
-- How numbers and identifiers are printed: `std::to_string`, and the functions of
-- include/utils/types.hpp that print INVALID for the largest value of a type.
pub mod Digits
use Prim.Native.String.{String, ◌++◌}
use trading_system.Prelude.{
  ℕ, zero, suc, ◌-◌, ◌/◌, ◌%◌, ◌^◌, List, [], ◌∷◌, ltb, ◌==◌, get_or, if◌then◌else◌,
}
use trading_system.Prelude as Prelude
use trading_system.Types.{
  order_id_invalid, ticker_id_invalid, client_id_invalid, price_invalid, qty_invalid,
  priority_invalid,
}

-- The decimal digits of a number below `10 ^ fuel`, most significant first.
unfoldable pub digits : ℕ → ℕ → List ℕ
digits zero n = []
digits (suc fuel) n =
    let more = digits fuel (n / 10) in if ltb n 10 then n ∷ [] else Prelude.◌++◌ more (n % 10 ∷ [])

abbrev digit_texts : List String
digit_texts = "0" ∷ "1" ∷ "2" ∷ "3" ∷ "4" ∷ "5" ∷ "6" ∷ "7" ∷ "8" ∷ "9" ∷ []

pub digit_text : ℕ → String
digit_text d = get_or digit_texts d ""

pub digits_text : List ℕ → String
unfolding digit_text
digits_text [] = ""
digits_text (d ∷ ds) = digit_text d ++ digits_text ds

-- A number of 64 bits has at most 20 digits.
pub to_string : ℕ → String
unfolding digits digits_text
to_string n = digits_text (digits 20 n)

pub order_id_to_string : ℕ → String
unfolding to_string
order_id_to_string n = if n == order_id_invalid then "INVALID" else to_string n

pub ticker_id_to_string : ℕ → String
unfolding to_string
ticker_id_to_string n = if n == ticker_id_invalid then "INVALID" else to_string n

pub client_id_to_string : ℕ → String
unfolding to_string
client_id_to_string n = if n == client_id_invalid then "INVALID" else to_string n

pub price_to_string : ℕ → String
unfolding to_string
price_to_string n = if n == price_invalid then "INVALID" else to_string n

pub qty_to_string : ℕ → String
unfolding to_string
qty_to_string n = if n == qty_invalid then "INVALID" else to_string n

pub priority_to_string : ℕ → String
unfolding to_string
priority_to_string n = if n == priority_invalid then "INVALID" else to_string n
