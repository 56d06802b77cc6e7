-- ===== src/Portfolio/Reporting.antt =====
-- What trading/portfolio/portfolio_manager.go reports. `prefix` gives the first three bytes of a symbol
-- of six bytes or more.
use expert_octo_enigma.Prelude.{
  ℕ, String, Bool, false, ◌||◌, Option, none, some, [], ◌∷◌, if◌then◌else◌, str_eq, length,
}
use expert_octo_enigma.Prelude.Int.{ℤ, pos, sub_ℕ, ◌+ℤ◌}
use expert_octo_enigma.Table.{Table, lookup, insert}
use expert_octo_enigma.Float.{Float, nought}
use expert_octo_enigma.Portfolio.{
  PortfolioPosition, PortfolioPerformance, PortfolioManager, magnitude,
}
use expert_octo_enigma.Portfolio.Rebalancing.{value_at, should_rebalance}

pub record PortfolioOverview (F : Type 0) : Type 0 where
  pub total_value : F
  pub total_return : F
  pub daily_return : F
  pub annualized_return : F
  pub max_drawdown : F
  pub sharpe_ratio : F
  pub position_count : ℕ
  pub cash_balance : F
  pub created_at : ℕ
  pub last_rebalance : ℕ
  pub next_rebalance : ℤ
  pub position_distribution : Table F
  pub industry_distribution : Table F

pub record RebalanceRecommendation (F : Type 0) : Type 0 where
  pub needs_rebalancing : Bool
  pub max_weight_drift : F
  pub current_weights : Table F
  pub target_weights : Table F
  pub weight_drifts : Table F
  pub recommended_action : String
  pub estimated_cost : F
  pub timestamp : ℕ

pub record PortfolioStats : Type 0 where
  pub total_positions : ℕ
  pub active_strategies : ℕ
  pub uptime : ℤ
  pub last_update : ℕ
  pub last_rebalance : ℕ
  pub should_rebalance : Bool

pub get_industry_from_symbol : (String → Option String) → String → String
get_industry_from_symbol prefix symbol = elim (prefix symbol) [
  | none ↦ "未知"
  | some s ↦
      if str_eq s "600" || str_eq s "601" || str_eq s "603"
      then "主板"
      else if str_eq s "000" || str_eq s "002"
      then "中小板"
      else if str_eq s "300"
      then "创业板"
      else "其他"
]

module _ {F : Type 0} ⦃f : Float F⦄ where
  by_symbol : Table (PortfolioPosition F) → Table F → Table F
  by_symbol [] d = d
  by_symbol ((key, q) ∷ rest) d = by_symbol rest (insert q.symbol q.weight d)

  by_industry : (String → Option String) → Table (PortfolioPosition F) → Table F → Table F
  unfolding get_industry_from_symbol
  by_industry prefix [] d = d
  by_industry prefix ((key, q) ∷ rest) d =
      let industry = get_industry_from_symbol prefix q.symbol in
      by_industry prefix rest (insert industry (f.add (value_at industry d) q.weight) d)

  pub calculate_position_distribution : PortfolioManager F → Table F
  unfolding by_symbol
  calculate_position_distribution p =
      if f.eq p.performance.total_value nought then [] else by_symbol p.positions []

  pub calculate_industry_distribution : (String → Option String) → PortfolioManager F → Table F
  unfolding by_industry
  calculate_industry_distribution prefix p =
      if f.eq p.performance.total_value nought then [] else by_industry prefix p.positions []

  pub get_portfolio_overview : (String → Option String) → PortfolioManager F → PortfolioOverview F
  unfolding calculate_position_distribution calculate_industry_distribution
  get_portfolio_overview prefix p = record {
    total_value = p.performance.total_value;
    total_return = p.performance.total_return;
    daily_return = p.performance.daily_return;
    annualized_return = p.performance.annualized_return;
    max_drawdown = p.performance.max_drawdown;
    sharpe_ratio = p.performance.sharpe_ratio;
    position_count = length p.positions;
    cash_balance = nought;
    created_at = p.created_at;
    last_rebalance = p.last_rebalance;
    next_rebalance = pos p.last_rebalance +ℤ p.config.rebalance_frequency;
    position_distribution = calculate_position_distribution p;
    industry_distribution = calculate_industry_distribution prefix p;
  }

  pub get_position_details : String → PortfolioManager F → Option (PortfolioPosition F)
  get_position_details symbol p = lookup symbol p.positions

  pub get_all : PortfolioManager F → Table (PortfolioPosition F)
  get_all p = p.positions

  pub get_performance : PortfolioManager F → PortfolioPerformance F
  get_performance p = p.performance

  weights_of : Table (PortfolioPosition F) → Table F
  weights_of [] = []
  weights_of ((symbol, q) ∷ rest) = (symbol, q.weight) ∷ weights_of rest

  pub get_current_weights : PortfolioManager F → Table F
  unfolding weights_of
  get_current_weights p =
      if f.eq p.performance.total_value nought then [] else weights_of p.positions

  drift_at : String → Table F → Table F → F
  drift_at symbol current target = f.sub (value_at symbol target) (value_at symbol current)

  drifts_for : Table F → Table F → Table F → Table F → Table F
  unfolding drift_at
  drifts_for current target [] drifts = drifts
  drifts_for current target ((symbol, w) ∷ rest) drifts =
      drifts_for current target rest (insert symbol (drift_at symbol current target) drifts)

  -- For each key of the two maps.
  pub calculate_weight_drifts : Table F → Table F → Table F
  unfolding drifts_for
  calculate_weight_drifts current target =
      drifts_for current target target (drifts_for current target current [])

  drift_sums : Table F → F → F → F × F
  drift_sums [] up down = (up, down)
  drift_sums ((symbol, d) ∷ rest) up down =
      let more = drift_sums rest in
      if f.lt nought d then more (f.add up d) down else more up (f.add down d)

  pub get_recommended_action : Table F → String
  unfolding drift_sums
  get_recommended_action drifts =
      let (up, down) = drift_sums drifts nought nought in
      if f.lt (f.mul (magnitude down) (f.lit 15 1)) (magnitude up)
      then "buy_more"
      else if f.lt (f.mul (magnitude up) (f.lit 15 1)) (magnitude down)
      then "sell_some"
      else "balanced"

  turnover : Table F → F → F
  turnover [] total = total
  turnover ((symbol, d) ∷ rest) total = turnover rest (f.add total (magnitude d))

  pub estimate_rebalance_cost : Table F → PortfolioManager F → F
  unfolding turnover
  estimate_rebalance_cost drifts p =
      f.mul (f.mul p.performance.total_value (turnover drifts nought)) (f.lit 1 3)

  any_drift : Table F → Bool
  any_drift [] = false
  any_drift ((symbol, d) ∷ rest) = f.lt (f.lit 5 2) (magnitude d) || any_drift rest

  most_drift : Table F → F → F
  most_drift [] most = most
  most_drift ((symbol, d) ∷ rest) most =
      most_drift rest (if f.lt most (magnitude d) then magnitude d else most)

  pub get_rebalance_recommendation : ℕ → PortfolioManager F → RebalanceRecommendation F
  unfolding get_current_weights calculate_weight_drifts any_drift most_drift get_recommended_action
      estimate_rebalance_cost
  get_rebalance_recommendation now p =
      let drifts = calculate_weight_drifts (get_current_weights p) p.strategy_weights in
      record {
        needs_rebalancing = any_drift drifts;
        max_weight_drift = most_drift drifts nought;
        current_weights = get_current_weights p;
        target_weights = p.strategy_weights;
        weight_drifts = drifts;
        recommended_action = get_recommended_action drifts;
        estimated_cost = estimate_rebalance_cost drifts p;
        timestamp = now;
      }

  pub get_stats : ℕ → PortfolioManager F → PortfolioStats
  get_stats now p = record {
    total_positions = length p.positions;
    active_strategies = length p.strategy_weights;
    uptime = sub_ℕ now p.created_at;
    last_update = p.performance.last_update;
    last_rebalance = p.last_rebalance;
    should_rebalance = should_rebalance now p;
  }
