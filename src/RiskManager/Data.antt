-- ===== src/RiskManager/Data.antt =====
-- The data of trading/risk_manager.go: its configuration and state, what it is asked and what it reports.
use expert_octo_enigma.Prelude.{ℕ, String, Bool, Option, List}
use expert_octo_enigma.Prelude.Int.{ℤ}

pub record RiskConfig (F : Type 0) : Type 0 where
  pub initial_capital : F
  pub max_single_position : F
  pub max_positions : ℕ
  pub max_daily_loss : F
  pub min_order_amount : F
  pub stop_loss_percent : F

pub record RiskManager (F : Type 0) : Type 0 where
  pub config : RiskConfig F
  pub has_history : Bool
  pub daily_pnl : F
  pub daily_start_equity : F
  pub emergency_stop : Bool

-- The fields of a `Balance` and of a `Position` that the risk manager reads.
pub record Balance (F : Type 0) : Type 0 where
  pub total_assets : F
  pub available_cash : F

pub record Position (F : Type 0) : Type 0 where
  pub symbol : String
  pub amount : ℤ
  pub current_price : F
  pub profit_percent : F

pub record OrderRequest (F : Type 0) : Type 0 where
  pub type : String
  pub symbol : String
  pub price : F
  pub amount : ℤ

-- The answers to the two questions for the balance, and to the one for the positions.
pub record Answers (F : Type 0) : Type 0 where
  pub balance : Option (Balance F)
  pub second_balance : Option (Balance F)
  pub positions : Option (List (Position F))

pub data RiskError : Type 0 where
  emergency_stopped min_order_amount insufficient_cash max_position_exceeded : RiskError
  max_positions_exceeded daily_loss_exceeded no_balance no_positions : RiskError

pub record DailyPnl (F : Type 0) : Type 0 where
  pub open_equity : F
  pub close_equity : F
  pub pnl : F
  pub pnl_percent : F

pub record RiskMetrics (F : Type 0) : Type 0 where
  pub initial_capital : F
  pub current_equity : F
  pub daily_pnl : F
  pub daily_pnl_percent : F
  pub position_count : ℕ
  pub emergency_stop : Bool

pub record PortfolioSummary (F : Type 0) : Type 0 where
  pub total_value : F
  pub daily_pnl : F
  pub daily_pnl_percent : F
  pub drawdown : F
