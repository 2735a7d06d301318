-- ===== src/Client/RiskManager/Limits.antt =====
-- When the pre-trade check lets an order through.
use trading_system.Prelude.{ℕ, ◌≤◌, ◌≡◌, ◌↔◌, refl, Bool, true, false, arith, ltb, if◌then◌else◌}
use trading_system.Prelude.Int.{◌+ℤ◌, ◌*ℤ◌, pos, ltb_ℤ}
use trading_system.Types.{Side, side_to_value}
use trading_system.Client.Double.{Double}
use trading_system.Client.Int32.{signed32, abs}
use trading_system.Client.PositionKeeper.{PositionInfo}
use trading_system.Client.RiskManager.{RiskCheckResult, RiskCfg, check_pre_trade_risk}

-- The three tests in turn.
abbrev verdict : Bool → Bool → Bool → RiskCheckResult
verdict a b c =
    if a
    then RiskCheckResult.order_too_large
    else (if b
        then RiskCheckResult.position_too_large
        else (if c then RiskCheckResult.loss_too_large else RiskCheckResult.allowed))

verdict-allowed :
    (a b c : Bool)
    → verdict a b c ≡ RiskCheckResult.allowed
    → (a ≡ false) × (b ≡ false) × (c ≡ false)
verdict-allowed true b c h = cc
verdict-allowed false true c h = cc
verdict-allowed false false true h = cc
verdict-allowed false false false h = (refl, refl, refl)

module _ (d : Double) where
  -- The three limits.
  pub record InLimits (p : PositionInfo d) (cfg : RiskCfg d) (side : Side) (qty : ℕ) : Type 0 where
    pub size : qty ≤ cfg.max_order_size
    pub position :
        ltb_ℤ
          (signed32 cfg.max_position)
          (pos (abs (p.position +ℤ side_to_value side *ℤ signed32 qty)))
        ≡ false
    pub loss : d.less p.total_pnl cfg.max_loss ≡ false

  -- The check allows an order exactly when its size, the position after it and the profit so far are
  -- within the limits.
  pub check_pre_trade_risk-allowed :
      (p : PositionInfo d) (cfg : RiskCfg d) (side : Side) (qty : ℕ)
      → (check_pre_trade_risk d p cfg side qty ≡ RiskCheckResult.allowed) ↔ InLimits p cfg side qty
  unfolding check_pre_trade_risk
  check_pre_trade_risk-allowed p cfg side qty = (
    λ h.
        let (size, position, loss) = verdict-allowed _ _ _ h in
        record { size = within size; position = position; loss = loss },
    λ w. rw (size_ok w.size, w.position, w.loss, check_pre_trade_risk) refl,
  )
    where
      size_ok : qty ≤ cfg.max_order_size → ltb cfg.max_order_size qty ≡ false
      size_ok h = ground arith

      within : ltb cfg.max_order_size qty ≡ false → qty ≤ cfg.max_order_size
      within h = ground arith
