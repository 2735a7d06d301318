-- ===== src/Client/Double.antt =====
-- The type `double` and what the client uses of it, as a parameter: no law is assumed of it here.
use trading_system.Prelude.{ℕ, Bool}
use trading_system.Prelude.Int.{ℤ}

pub record Double : Type 1 where
  pub F : Type 0
  pub of_ℕ : ℕ → F
  pub of_ℤ : ℤ → F
  pub plus : F → F → F
  pub minus : F → F → F
  pub times : F → F → F
  pub divide : F → F → F
  -- `a < b`, false on a NaN.
  pub less : F → F → Bool
  -- `a >= b`, false on a NaN.
  pub at_least : F → F → Bool
  -- `a != b`, true on a NaN.
  pub differs : F → F → Bool
  pub quiet_nan : F
