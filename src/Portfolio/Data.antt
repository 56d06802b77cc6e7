-- ===== src/Portfolio/Data.antt =====
-- The state of trading/portfolio/portfolio_manager.go.
use expert_octo_enigma.Prelude.{ℕ, String, Option, List, [], if◌then◌else◌}
use expert_octo_enigma.Prelude.Int.{ℤ}
use expert_octo_enigma.Table.{Table}
use expert_octo_enigma.Float.{Float, nought}
use expert_octo_enigma.Lock.{Guarded}
use expert_octo_enigma.Positions.{Positions}

pub record PortfolioConfig (F : Type 0) : Type 0 where
  pub rebalance_frequency : ℤ
  pub max_turnover : F
  pub min_position_weight : F
  pub max_position_weight : F
  pub target_return : F
  pub risk_free_rate : F

pub record WeightPoint (F : Type 0) : Type 0 where
  pub timestamp : ℕ
  pub weight : F
  pub value : F

pub record PortfolioPosition (F : Type 0) : Type 0 where
  pub symbol : String
  pub quantity : ℤ
  pub market_value : F
  pub weight : F
  pub cost_basis : F
  pub unrealized_pl : F
  pub weight_history : List (WeightPoint F)
  pub last_update : ℕ

pub record ReturnPoint (F : Type 0) : Type 0 where
  pub timestamp : ℕ
  pub value : F
  pub change : F

-- The fields that are written; the others stay 0.
pub record PortfolioPerformance (F : Type 0) : Type 0 where
  pub total_value : F
  pub total_return : F
  pub daily_return : F
  pub annualized_return : F
  pub max_drawdown : F
  pub sharpe_ratio : F
  pub return_history : List (ReturnPoint F)
  pub last_update : ℕ

-- The position manager is shared by pointer: it is here as the next call finds it.
pub record PortfolioManager (F : Type 0) : Type 0 where
  pub config : PortfolioConfig F
  pub positions : Table (PortfolioPosition F)
  pub strategy_weights : Table F
  pub performance : PortfolioPerformance F
  pub position_manager : Option (Guarded (Positions F))
  pub created_at : ℕ
  pub last_rebalance : ℕ

pub record RebalanceOrder (F : Type 0) : Type 0 where
  pub symbol : String
  pub action : String
  pub target_value : F
  pub current_value : F
  pub order_value : F

module _ {F : Type 0} ⦃f : Float F⦄ where
  -- `math.Abs`
  abbrev pub magnitude : F → F
  magnitude x = if f.lt x nought then f.neg x else x

  unfoldable pub new_portfolio_manager :
      PortfolioConfig F → Option (Guarded (Positions F)) → ℕ → PortfolioManager F
  new_portfolio_manager config position_manager now = record {
    config = config;
    positions = [];
    strategy_weights = [];
    performance = record {
      total_value = nought;
      total_return = nought;
      daily_return = nought;
      annualized_return = nought;
      max_drawdown = nought;
      sharpe_ratio = nought;
      return_history = [];
      last_update = 0;
    };
    position_manager = position_manager;
    created_at = now;
    last_rebalance = now;
  }

  unfoldable pub set_config : PortfolioConfig F → PortfolioManager F → PortfolioManager F
  set_config config p = record p { config = config }

  pub get_config : PortfolioManager F → PortfolioConfig F
  get_config p = p.config
