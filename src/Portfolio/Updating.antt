-- ===== src/Portfolio/Updating.antt =====
-- UpdatePositions of trading/portfolio/portfolio_manager.go and the performance that it computes.
-- `days` are the days since the manager's creation.
use expert_octo_enigma.Prelude.{
  ℕ, ◌-◌, Bool, true, false, Option, none, some, List, [], ◌∷◌, ◌++◌, if◌then◌else◌, ltb, length,
}
use expert_octo_enigma.Prelude.Int.{ℤ, pos, ltb_ℤ, sub_ℕ}
use expert_octo_enigma.Table.{Table, lookup, insert}
use expert_octo_enigma.Float.{Float, nought}
use expert_octo_enigma.Lock.{Outcome, done, and_then}
use expert_octo_enigma.Positions.{PositionState, get_all_positions}
use expert_octo_enigma.Portfolio.{
  WeightPoint, PortfolioPosition, ReturnPoint, PortfolioPerformance, PortfolioManager,
}

abbrev pub last : {A : Type 0} → List A → Option A
last [] = none
last (x ∷ xs) = elim (last xs) [ none ↦ some x | some y ↦ some y ]

abbrev but_first : {A : Type 0} → List A → List A
but_first [] = []
but_first (x ∷ xs) = xs

-- One hour in nanoseconds.
abbrev hour : ℤ
hour = pos 3_600_000_000_000

module _ {F : Type 0} ⦃f : Float F⦄ where
  unfoldable pub total_of : List (PositionState F) → F → F
  total_of [] total = total
  total_of (s ∷ rest) total = total_of rest (f.add total s.market_value)

  unfoldable pub portfolio_position : ℕ → F → PositionState F → PortfolioPosition F
  portfolio_position now weight s = record {
    symbol = s.symbol;
    quantity = s.amount;
    market_value = s.market_value;
    weight = weight;
    cost_basis = s.cost_price;
    unrealized_pl = s.unrealized_pnl;
    weight_history = [];
    last_update = now;
  }

  unfoldable pub due : ℕ → Option (WeightPoint F) → Bool
  due now none = true
  due now (some w) = ltb_ℤ hour (sub_ℕ now w.timestamp)

  unfoldable pub at_most_100 : List (WeightPoint F) → List (WeightPoint F)
  at_most_100 history = if ltb 100 (length history) then but_first history else history

  -- A point at most each hour, and at most 100 points.
  unfoldable pub extend_history : ℕ → F → F → List (WeightPoint F) → List (WeightPoint F)
  unfolding due at_most_100
  extend_history now weight value history =
      if due now (last history)
      then at_most_100 (history ++ record { timestamp = now; weight = weight; value = value } ∷ [])
      else history

  unfoldable pub weight_of : F → PositionState F → F
  weight_of total s = if f.lt nought total then f.div s.market_value total else nought

  -- The new position is stored, read again, and its history extended.
  unfoldable pub store_position :
      ℕ → F → PositionState F → Table (PortfolioPosition F) → Table (PortfolioPosition F)
  unfolding portfolio_position extend_history weight_of
  store_position now total s ps =
      let once = insert s.symbol (portfolio_position now (weight_of total s) s) ps in
      elim (lookup s.symbol once) [
        | none ↦ once
        | some p ↦
            insert s.symbol
              (record p {
                weight_history =
                    extend_history now (weight_of total s) s.market_value p.weight_history;
              })
              once
      ]

  unfoldable pub store_all :
      ℕ → F → List (PositionState F) → Table (PortfolioPosition F) → Table (PortfolioPosition F)
  unfolding store_position
  store_all now total [] ps = ps
  store_all now total (s ∷ rest) ps = store_all now total rest (store_position now total s ps)

  unfoldable pub drawdown_from : List (ReturnPoint F) → F → F → F
  drawdown_from [] peak most = most
  drawdown_from (r ∷ rest) peak most =
      let more = drawdown_from rest in
      let top = if f.lt peak r.value then r.value else peak in
      let d = f.div (f.sub top r.value) top in more top (if f.lt most d then d else most)

  unfoldable pub calculate_max_drawdown : List (ReturnPoint F) → F
  unfolding drawdown_from
  calculate_max_drawdown history = drawdown_from history nought nought

  sum : List F → F → F
  sum [] total = total
  sum (x ∷ xs) total = sum xs (f.add total x)

  excess : F → List (ReturnPoint F) → List F
  excess rate [] = []
  excess rate (r ∷ rest) = f.sub r.change (f.div rate (f.lit 365 0)) ∷ excess rate rest

  squares : F → List F → List F
  squares mean [] = []
  squares mean (x ∷ xs) = let d = f.sub x mean in f.mul d d ∷ squares mean xs

  sharpe_of : (F → F) → List F → F
  unfolding sum squares
  sharpe_of sqrt xs =
      let mean = f.div (sum xs nought) (f.of_int (pos (length xs))) in
      let deviation =
        sqrt (f.div (sum (squares mean xs) nought) (f.of_int (pos (length xs - 1)))) in
      if f.eq deviation nought
      then nought
      else f.div (f.mul mean (f.lit 252 0)) (f.mul deviation (sqrt (f.lit 252 0)))

  unfoldable pub calculate_sharpe_ratio : (F → F) → F → List (ReturnPoint F) → F
  unfolding sharpe_of excess
  calculate_sharpe_ratio sqrt rate history =
      if ltb (length history) 2 then nought else sharpe_of sqrt (excess rate history)

  unfoldable pub get_initial_value : PortfolioPerformance F → F
  get_initial_value q = elim q.return_history [ [] ↦ q.total_value | r ∷ rest ↦ r.value ]

  unfoldable pub return_since : F → F → F → F
  return_since start total old = if f.lt nought start then f.div (f.sub total start) start else old

  unfoldable pub annualized : (F → F → F) → F → List (ReturnPoint F) → F → F → F
  annualized pow days [] total_return old = old
  annualized pow days (r ∷ rest) total_return old =
      if f.lt nought days
      then f.sub (pow (f.add (f.lit 1 0) total_return) (f.div (f.lit 365 0) days)) (f.lit 1 0)
      else old

  unfoldable pub last_change : List (ReturnPoint F) → F → F
  last_change history old = elim (last history) [ none ↦ old | some r ↦ r.change ]

  unfoldable pub update_performance :
      (F → F → F) → (F → F) → F → ℕ → F → F → PortfolioPerformance F → PortfolioPerformance F
  unfolding return_since annualized last_change calculate_max_drawdown calculate_sharpe_ratio
      get_initial_value
  update_performance pow sqrt days now rate total q =
      let start = get_initial_value (record q { total_value = total }) in
      let whole = return_since start total q.total_return in
      record q {
        total_value = total;
        daily_return = last_change q.return_history q.daily_return;
        total_return = whole;
        annualized_return = annualized pow days q.return_history whole q.annualized_return;
        max_drawdown = calculate_max_drawdown q.return_history;
        sharpe_ratio = calculate_sharpe_ratio sqrt rate q.return_history;
        last_update = now;
      }

  unfoldable pub updated :
      (F → F → F)
      → (F → F)
      → F
      → ℕ
      → List (PositionState F)
      → PortfolioManager F
      → PortfolioManager F
  unfolding store_all update_performance total_of
  updated pow sqrt days now states p =
      let total = total_of states nought in
      record p {
        positions = store_all now total states p.positions;
        performance =
            update_performance pow sqrt days now p.config.risk_free_rate total p.performance;
      }

  -- `false` without a position manager.
  unfoldable pub update_positions :
      (F → F → F) → (F → F) → F → ℕ → PortfolioManager F → Outcome (Bool × PortfolioManager F)
  unfolding updated
  update_positions pow sqrt days now p = elim p.position_manager [
    | none ↦ done (false, p)
    | some g ↦
        and_then (get_all_positions g) (λ r.
          done (true, updated pow sqrt days now r.0 (record p { position_manager = some r.1 })))
  ]
