-- ===== src/Portfolio/Tests.antt =====
-- Runs of trading/portfolio/portfolio_manager.go and its theorems at concrete inputs.
use expert_octo_enigma.Prelude.{
  ℕ, String, ◌≡◌, refl, Bool, true, false, Option, none, some, List, [], ◌∷◌, ◌⊎◌, inl, inr, map,
  arith,
}
use expert_octo_enigma.Prelude.Int.{ℤ, pos}
use expert_octo_enigma.Float.Signed.{signed}
use expert_octo_enigma.Table.{Table, lookup}
use expert_octo_enigma.Lock.{Outcome, done, free, Guarded}
use expert_octo_enigma.Positions.{Positions, PositionState}
use expert_octo_enigma.Portfolio.{PortfolioConfig, PortfolioManager, new_portfolio_manager}
use expert_octo_enigma.Portfolio.Updating.{update_positions}
use expert_octo_enigma.Portfolio.Rebalancing.{
  WeightError, validate_weights, calculate_target_positions, rebalance,
}
use expert_octo_enigma.Portfolio.Flat.{
  Call, updates, rebalances, trades, run, IsFlat, never_measures,
}
use expert_octo_enigma.Portfolio.Kept.{sold_stays}
use expert_octo_enigma.Portfolio.Capped.{Answers, rebalance-Answers}

abbrev config : PortfolioConfig ℤ
config = record {
  rebalance_frequency = pos 10;
  max_turnover = pos 1;
  min_position_weight = pos 0;
  max_position_weight = pos 1;
  target_return = pos 0;
  risk_free_rate = pos 0;
}

abbrev held_position : PositionState ℤ
held_position = record {
  symbol = "sh600000";
  name = "";
  amount = pos 100;
  available = pos 100;
  cost_price = pos 5;
  total_cost = pos 500;
  current_price = pos 6;
  market_value = pos 600;
  unrealized_pnl = pos 100;
  realized_pnl = pos 0;
  update_time = 1;
}

abbrev held : Positions ℤ
held = ("sh600000", held_position) ∷ []

-- The portfolio still has a position that was sold.
abbrev portfolio : PortfolioManager ℤ
portfolio = record {
  config = config;
  positions =
      (
        "sh600519",
        record {
          symbol = "sh600519";
          quantity = pos 100;
          market_value = pos 900;
          weight = pos 1;
          cost_basis = pos 9;
          unrealized_pl = pos 0;
          weight_history = [];
          last_update = 0;
        },
      )
      ∷ [];
  strategy_weights = [];
  performance = record {
    total_value = pos 900;
    total_return = pos 0;
    daily_return = pos 0;
    annualized_return = pos 0;
    max_drawdown = pos 0;
    sharpe_ratio = pos 0;
    return_history = [];
    last_update = 0;
  };
  position_manager = some (record { mu = free; inner = held });
  created_at = 0;
  last_rebalance = 0;
}

abbrev pow : ℤ → ℤ → ℤ
pow x y = x

abbrev sqrt : ℤ → ℤ
sqrt x = x

sold_stays_example :
    (q : PortfolioManager ℤ) × (update_positions pow sqrt (pos 1) 5 portfolio ≡ done (true, q))
    × (lookup "sh600519" q.positions ≡ lookup "sh600519" portfolio.positions)
sold_stays_example = sold_stays pow sqrt (pos 1) 5 portfolio held "sh600519" refl (refl, tt)

abbrev weights : Table ℤ
weights = ("ma_strategy", pos 1) ∷ []

rebalance-Answers_example :
    let (r, p') = rebalance weights 5 portfolio in
    let q = record portfolio { strategy_weights = weights } in
    ((r.0 ≡ none)
      × Answers q (calculate_target_positions weights q) r.1
      × (p' ≡ record q { last_rebalance = 5 }))
    ⊎ ((e : WeightError) × (r ≡ (some e, [])) × (p' ≡ portfolio))
rebalance-Answers_example = rebalance-Answers weights 5 portfolio

-- A purchase of what is not held, and a sale of half of what is.
rebalanced :
    (map (λ o. o.action) (rebalance weights 5 portfolio).0.1 ≡ "buy" ∷ "sell" ∷ [])
    × (map (λ o. o.order_value) (rebalance weights 5 portfolio).0.1 ≡ pos 450 ∷ pos 450 ∷ [])
unfolding rebalance validate_weights calculate_target_positions
    expert_octo_enigma.Portfolio.Rebalancing.generate_rebalance_orders
    expert_octo_enigma.Prelude.Int.◌-ℤ◌ expert_octo_enigma.Prelude.Int.◌+ℤ◌ lookup
    expert_octo_enigma.Table.insert
rebalanced = (refl, refl)

-- The holding doubles in value before the second update.
abbrev doubled : Guarded (Positions ℤ) → Guarded (Positions ℤ)
doubled g = record g {
  inner =
      ("sh600000", record held_position { current_price = pos 12; market_value = pos 1200 }) ∷ [];
}

abbrev calls : List (Call ℤ)
calls = updates (pos 1) 5 ∷ rebalances weights 6 ∷ trades doubled ∷ updates (pos 2) 9 ∷ []

abbrev manager_or : PortfolioManager ℤ → Outcome (PortfolioManager ℤ) → PortfolioManager ℤ
manager_or p (done q) = q
manager_or p _ = p

abbrev after_calls : PortfolioManager ℤ
after_calls = manager_or portfolio (
    run pow sqrt calls (new_portfolio_manager config (some (record { mu = free; inner = held })) 0))

-- The total value has doubled and the total return is 0.
doubled_unmeasured :
    (after_calls.performance.total_value ≡ pos 1200)
    × (after_calls.performance.total_return ≡ pos 0)
unfolding run update_positions new_portfolio_manager expert_octo_enigma.Positions.get_all_positions
    rebalance validate_weights expert_octo_enigma.Prelude.Int.◌-ℤ◌
    expert_octo_enigma.Prelude.Int.◌+ℤ◌
doubled_unmeasured = (refl, refl)

never_measures_example : IsFlat after_calls
unfolding run update_positions new_portfolio_manager expert_octo_enigma.Positions.get_all_positions
    rebalance validate_weights expert_octo_enigma.Prelude.Int.◌-ℤ◌
    expert_octo_enigma.Prelude.Int.◌+ℤ◌
never_measures_example =
    never_measures pow sqrt config (some (record { mu = free; inner = held })) 0 calls after_calls
      refl
