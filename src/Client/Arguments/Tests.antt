-- ===== src/Client/Arguments/Tests.antt =====
-- A market maker on one instrument.
use Prim.Native.String.{String, len}
use trading_system.Prelude.{ℕ}
use trading_system.Client.Arguments.Groups.{Group}

-- A reader that gives the number of characters.
abbrev as_length : String → ℕ
as_length s = len s

abbrev small : Group
small = record { clip = "5"; threshold = "10"; size = "100"; position = "1000"; loss = "7" }
