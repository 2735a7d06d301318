-- ===== src/Client/Arguments/Groups.antt =====
-- Which arguments configure which instrument.
use Prim.Native.String.{String}
use trading_system.Prelude.{ℕ, zero, suc, ◌+◌, ◌<◌, ◌≡◌, List, [], ◌∷◌}
use trading_system.Types.{string_to_algo_type}
use trading_system.Client.Double.{Double}
use trading_system.Client.RiskManager.{TradeEngineCfg}
use trading_system.Client.Arguments.{blank_cfg, cfg_of, Arguments}

-- The five arguments of an instrument.
pub record Group : Type 0 where
  pub clip : String
  pub threshold : String
  pub size : String
  pub position : String
  pub loss : String

abbrev pub written : List Group → List String
written [] = []
written (g ∷ gs) = g.clip ∷ g.threshold ∷ g.size ∷ g.position ∷ g.loss ∷ written gs

module _ (d : Double) (atoi : String → ℕ) (atof : String → d.F) where
  abbrev pub cfg : Group → TradeEngineCfg d
  cfg g = cfg_of d atoi atof g.clip g.threshold g.size g.position g.loss

  -- The `n`-th group configures instrument `n`; an instrument without a group keeps what it had.
  abbrev pub chosen : List Group → ℕ → TradeEngineCfg d → TradeEngineCfg d
  chosen [] n old = old
  chosen (g ∷ gs) zero old = cfg g
  chosen (g ∷ gs) (suc n) old = chosen gs n old

  -- From instrument `t` on the table follows the groups, and below it stays as it was.
  record Follows (gs : List Group) (t : ℕ) (table result : ℕ → TradeEngineCfg d) : Type 0 where
    from_t : (n : ℕ) → result (t + n) ≡ chosen gs n (table (t + n))
    below_t : (n : ℕ) → n < t → result n ≡ table n

  -- What the program is started with.
  pub record Configured (client algo : String) (gs : List Group) (a : Arguments d atoi atof)
      : Type 0 where
    pub client_id : a.client_id ≡ atoi client
    pub algo_type : a.algo_type ≡ string_to_algo_type algo
    pub ticker_cfg : (n : ℕ) → a.ticker_cfg n ≡ chosen gs n (blank_cfg d atoi atof)
