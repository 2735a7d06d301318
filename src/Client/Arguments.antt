-- ===== src/Client/Arguments.antt =====
-- src/client/trading_main.cpp: the configuration of each instrument from the command line. `atoi` and
-- `atof` are parameters; a number of a quantity is the one that `atoi` gives, in 32 bits.
pub mod Groups
mod Tests
use Prim.Native.String.{String}
use trading_system.Prelude.{
  ℕ, zero, suc, ◌+◌, List, [], ◌∷◌, Result, ok, err, ◌>>=◌, ◌>>◌, require, null_pointer,
  out_of_range, assert_failed, ltb, update,
}
use trading_system.Types.{AlgoType, string_to_algo_type, me_max_tickers}
use trading_system.Client.Double.{Double}
use trading_system.Client.RiskManager.{RiskCfg, TradeEngineCfg}

module _ (d : Double) (atoi : String → ℕ) (atof : String → d.F) where
  -- The default values of the fields.
  abbrev pub blank_cfg : TradeEngineCfg d
  blank_cfg = record {
    clip = 0;
    threshold = d.of_ℕ 0;
    risk_cfg = record { max_order_size = 0; max_position = 0; max_loss = d.of_ℕ 0 };
  }

  abbrev pub cfg_of : String → String → String → String → String → TradeEngineCfg d
  cfg_of clip threshold size position loss = record {
    clip = atoi clip;
    threshold = atof threshold;
    risk_cfg = record {
      max_order_size = atoi size;
      max_position = atoi position;
      max_loss = atof loss;
    };
  }

  -- The loop over the arguments from the third on. `at` throws past the end of the table, and nobody
  -- catches. The argument behind the last one is a null pointer, and what follows it is not there.
  unfoldable pub parse_cfgs :
      List String → ℕ → (ℕ → TradeEngineCfg d) → Result (ℕ → TradeEngineCfg d)
  parse_cfgs [] t table = ok table
  parse_cfgs (clip ∷ threshold ∷ size ∷ position ∷ loss ∷ rest) t table = do
    require (ltb t me_max_tickers) assert_failed
    parse_cfgs rest (t + 1) (update table t (cfg_of clip threshold size position loss))
  parse_cfgs (clip ∷ []) t table = err null_pointer
  parse_cfgs (clip ∷ threshold ∷ []) t table = err null_pointer
  parse_cfgs (clip ∷ threshold ∷ size ∷ []) t table = err null_pointer
  parse_cfgs (clip ∷ threshold ∷ size ∷ position ∷ []) t table = err null_pointer

  pub record Arguments : Type 0 where
    pub client_id : ℕ
    pub algo_type : AlgoType
    pub ticker_cfg : ℕ → TradeEngineCfg d

  -- Of all arguments but the program's name.
  unfoldable pub parse_arguments : List String → Result Arguments
  unfolding parse_cfgs
  parse_arguments (client ∷ algo ∷ cfgs) = do
    table ← parse_cfgs cfgs 0 (λ _. blank_cfg)
    ok (record {
      client_id = atoi client;
      algo_type = string_to_algo_type algo;
      ticker_cfg = table;
    })
  parse_arguments (client ∷ []) = err assert_failed
  parse_arguments [] = err assert_failed
