-- ===== src/Portfolio/Rebalancing.antt =====
-- Rebalance of trading/portfolio/portfolio_manager.go and the recommendation to do so.
use expert_octo_enigma.Prelude.{
  ℕ, String, Bool, not, Option, none, some, List, [], ◌∷◌, if◌then◌else◌, str_eq, length,
}
use expert_octo_enigma.Prelude.Int.{pos, ltb_ℤ, sub_ℕ}
use expert_octo_enigma.Table.{Table, lookup, insert}
use expert_octo_enigma.Float.{Float, nought}
use expert_octo_enigma.Portfolio.{PortfolioPosition, PortfolioManager, RebalanceOrder, magnitude}

pub data WeightError : Type 0 where
  negative_weight wrong_sum : WeightError

pub get_strategy_symbols : String → List String
get_strategy_symbols name =
    if str_eq name "ma_strategy"
    then "sh600000" ∷ "sh600519" ∷ []
    else if str_eq name "rsi_strategy"
    then "sh601398" ∷ "sh600036" ∷ []
    else if str_eq name "ai_strategy"
    then "sh600000" ∷ "sh601398" ∷ []
    else if str_eq name "ml_strategy"
    then "sh600519" ∷ "sh600036" ∷ []
    else "sh600000" ∷ []

module _ {F : Type 0} ⦃f : Float F⦄ where
  validate_from : Table F → F → Option WeightError
  validate_from [] total =
      if f.lt (f.lit 1 3) (magnitude (f.sub total (f.lit 1 0))) then some wrong_sum else none
  validate_from ((name, w) ∷ rest) total =
      let more = validate_from rest (f.add total w) in
      if f.lt w nought then some negative_weight else more

  unfoldable pub validate_weights : Table F → Option WeightError
  unfolding validate_from
  validate_weights weights = validate_from weights nought

  -- `m[key]`, 0 where it is missing.
  abbrev pub value_at : String → Table F → F
  value_at key m = elim (lookup key m) [ none ↦ nought | some x ↦ x ]

  pub add_value : F → List String → Table F → Table F
  add_value value [] targets = targets
  add_value value (s ∷ rest) targets =
      add_value value rest (insert s (f.add (value_at s targets) value) targets)

  -- A strategy's share is divided evenly between its symbols.
  targets_from : F → Table F → Table F → Table F
  unfolding add_value get_strategy_symbols
  targets_from total [] targets = targets
  targets_from total ((name, w) ∷ rest) targets =
      let more = targets_from total rest in
      let symbols = get_strategy_symbols name in
      if f.le w nought
      then more targets
      else more
          (add_value (f.div (f.mul total w) (f.of_int (pos (length symbols)))) symbols targets)

  unfoldable pub calculate_target_positions : Table F → PortfolioManager F → Table F
  unfolding targets_from
  calculate_target_positions weights p = targets_from p.performance.total_value weights []

  -- At most the turnover limit.
  abbrev pub capped : F → F → F → F
  capped total limit value = if f.lt limit (f.div value total) then f.mul total limit else value

  unfoldable pub adjustment : String → F → F → PortfolioManager F → RebalanceOrder F
  adjustment symbol target current p =
      let difference = f.sub target current in
      let sells = f.lt difference nought in
      record {
        symbol = symbol;
        action = if sells then "sell" else "buy";
        target_value = target;
        current_value = current;
        order_value =
            capped p.performance.total_value p.config.max_turnover
              (if sells then f.neg difference else difference);
      }

  unfoldable pub purchase : String → F → RebalanceOrder F
  purchase symbol target = record {
    symbol = symbol;
    action = "buy";
    target_value = target;
    current_value = nought;
    order_value = target;
  }

  -- None for a difference below 100.
  unfoldable pub order_for :
      String
      → F
      → Option (PortfolioPosition F)
      → PortfolioManager F
      → List (RebalanceOrder F)
      → List (RebalanceOrder F)
  unfolding adjustment purchase
  order_for symbol target none p more = purchase symbol target ∷ more
  order_for symbol target (some q) p more =
      if f.lt (magnitude (f.sub q.market_value target)) (f.lit 100 0)
      then more
      else adjustment symbol target q.market_value p ∷ more

  unfoldable pub generate_rebalance_orders : Table F → PortfolioManager F → List (RebalanceOrder F)
  unfolding order_for
  generate_rebalance_orders [] p = []
  generate_rebalance_orders ((symbol, target) ∷ rest) p =
      order_for symbol target (lookup symbol p.positions) p (generate_rebalance_orders rest p)

  unfoldable pub rebalance_checked :
      Table F
      → ℕ
      → PortfolioManager F
      → Option WeightError
      → (Option WeightError × List (RebalanceOrder F)) × PortfolioManager F
  rebalance_checked weights now p (some e) = ((some e, []), p)
  rebalance_checked weights now p none =
      let q = record p { strategy_weights = weights } in
      (
        (none, generate_rebalance_orders (calculate_target_positions weights q) q),
        record q { last_rebalance = now },
      )

  unfoldable pub rebalance :
      Table F
      → ℕ
      → PortfolioManager F
      → (Option WeightError × List (RebalanceOrder F)) × PortfolioManager F
  unfolding rebalance_checked
  rebalance weights now p = rebalance_checked weights now p (validate_weights weights)

  unfoldable pub rebalance_now :
      ℕ → PortfolioManager F → (Option WeightError × List (RebalanceOrder F)) × PortfolioManager F
  rebalance_now now p = rebalance p.strategy_weights now p

  unfoldable pub set_strategy_weights :
      Table F → PortfolioManager F → Option WeightError × PortfolioManager F
  set_strategy_weights weights p = elim (validate_weights weights) [
    | some e ↦ (some e, p)
    | none ↦ (none, record p { strategy_weights = weights })
  ]

  pub get_strategy_weights : PortfolioManager F → Table F
  get_strategy_weights p = p.strategy_weights

  pub should_rebalance : ℕ → PortfolioManager F → Bool
  should_rebalance now p = not (ltb_ℤ (sub_ℕ now p.last_rebalance) p.config.rebalance_frequency)
