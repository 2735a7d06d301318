-- ===== src/Client/PositionKeeper/Fills.antt =====
-- What a fill leaves of the position before it.
use trading_system.Prelude.{◌≡◌}
use trading_system.Client.Double.{Double}
use trading_system.Client.PositionKeeper.{PositionInfo}

module _ (d : Double) where
  -- The volume and the position are those of `p`.
  record Kept (p q : PositionInfo d) : Type 0 where
    volume : q.volume ≡ p.volume
    position : q.position ≡ p.position
