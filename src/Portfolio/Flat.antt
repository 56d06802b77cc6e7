-- ===== src/Portfolio/Flat.antt =====
-- What the performance of trading/portfolio/portfolio_manager.go shows over a run.
use expert_octo_enigma.Prelude.{
  ℕ, ◌≡◌, refl, subst, Bool, true, false, Option, none, some, List, [], ◌∷◌, ◌⊎◌, inl, inr, arith,
  Bool-cases, Option-cases,
}
use mathlib.Core.Option
use expert_octo_enigma.Table.{Table}
use expert_octo_enigma.Float.{Float, nought}
use expert_octo_enigma.Lock.{Outcome, done, Guarded, and_then, and_then-eq-done, done-injective}
use expert_octo_enigma.Positions.{Positions, PositionState, get_all_positions}
use expert_octo_enigma.Portfolio.{
  PortfolioConfig, PortfolioManager, new_portfolio_manager, set_config,
}
use expert_octo_enigma.Portfolio.Updating.{
  update_positions, updated, update_performance, return_since, annualized, last_change, total_of,
  calculate_max_drawdown, drawdown_from, calculate_sharpe_ratio, get_initial_value,
}
use expert_octo_enigma.Portfolio.Rebalancing.{
  WeightError, rebalance, rebalance_checked, rebalance_now, set_strategy_weights, validate_weights,
}
use expert_octo_enigma.Portfolio.Kept.{HasOnePoint, store_all-HasOnePoint}

-- The calls that change the manager: the update at a number of days and a time, a rebalance to given
-- weights or to the manager's, and new weights or configurations. The position manager is shared by
-- pointer: between these calls, the rest of the program may change it in any way.
pub data Call (F : Type 0) : Type 0 where
  updates : F → ℕ → Call F
  rebalances : Table F → ℕ → Call F
  rebalances_now : ℕ → Call F
  sets_weights : Table F → Call F
  sets_config : PortfolioConfig F → Call F
  trades : (Guarded (Positions F) → Guarded (Positions F)) → Call F

module _ {F : Type 0} ⦃f : Float F⦄ (pow : F → F → F) (sqrt : F → F) where
  unfoldable pub perform : Call F → PortfolioManager F → Outcome (PortfolioManager F)
  perform (updates days now) p = and_then (update_positions pow sqrt days now p) (λ r. done r.1)
  perform (rebalances weights now) p = done (rebalance weights now p).1
  perform (rebalances_now now) p = done (rebalance_now now p).1
  perform (sets_weights weights) p = done (set_strategy_weights weights p).1
  perform (sets_config config) p = done (set_config config p)
  perform (trades change) p =
      done (record p { position_manager = Option.map change p.position_manager })

  unfoldable pub run : List (Call F) → PortfolioManager F → Outcome (PortfolioManager F)
  unfolding perform
  run [] p = done p
  run (c ∷ cs) p = and_then (perform c p) (run cs)

module _ {F : Type 0} ⦃f : Float F⦄ where
  -- Nothing is measured: no return is recorded, and the figures that rest on the records are 0.
  pub record IsFlat (p : PortfolioManager F) : Type 0 where
    pub no_returns : p.performance.return_history ≡ []
    pub no_daily : p.performance.daily_return ≡ nought
    pub no_annualized : p.performance.annualized_return ≡ nought
    pub no_drawdown : p.performance.max_drawdown ≡ nought
    pub no_sharpe : p.performance.sharpe_ratio ≡ nought
    pub total_against_itself :
        (p.performance.total_return ≡ nought)
        ⊎ ((t : F) × (p.performance.total_return ≡ f.div (f.sub t t) t))
    pub one_point : HasOnePoint p.positions

  -- It says nothing of the other fields.
  shown :
      {p : PortfolioManager F} {config : PortfolioConfig F} {weights : Table F}
      {g : Option (Guarded (Positions F))} {now : ℕ}
      → IsFlat p
      → IsFlat (record p {
        config = config;
        strategy_weights = weights;
        position_manager = g;
        last_rebalance = now;
      })
  shown h = record {
    no_returns = h.no_returns;
    no_daily = h.no_daily;
    no_annualized = h.no_annualized;
    no_drawdown = h.no_drawdown;
    no_sharpe = h.no_sharpe;
    total_against_itself = h.total_against_itself;
    one_point = h.one_point;
  }

  new-IsFlat :
      (config : PortfolioConfig F) (g : Option (Guarded (Positions F))) (now : ℕ)
      → IsFlat (new_portfolio_manager config g now)
  unfolding new_portfolio_manager expert_octo_enigma.Table.lookup
  new-IsFlat config g now = record {
    no_returns = refl;
    no_daily = refl;
    no_annualized = refl;
    no_drawdown = refl;
    no_sharpe = refl;
    total_against_itself = inl refl;
    one_point = λ symbol q e. ground (arith, e);
  }

  total-flat :
      (t old : F)
      → (old ≡ nought) ⊎ ((u : F) × (old ≡ f.div (f.sub u u) u))
      → (return_since t t old ≡ nought) ⊎ ((u : F) × (return_since t t old ≡ f.div (f.sub u u) u))
  unfolding return_since
  total-flat t old h = elim (Bool-cases (f.lt nought t)) [
    | inl b ↦ inr (t, rw b refl)
    | inr b ↦ rw b h
  ]

  updated-IsFlat :
      (pow : F → F → F) (sqrt : F → F) (days : F) (now : ℕ) (states : List (PositionState F))
      (p : PortfolioManager F)
      → IsFlat p
      → IsFlat (updated pow sqrt days now states p)
  unfolding updated update_performance annualized last_change calculate_max_drawdown drawdown_from
      calculate_sharpe_ratio get_initial_value
  updated-IsFlat pow sqrt days now states p h = record {
    no_returns = h.no_returns;
    no_daily = rw (h.no_returns) (h.no_daily);
    no_annualized = rw (h.no_returns) (h.no_annualized);
    no_drawdown = rw (h.no_returns) refl;
    no_sharpe = rw (h.no_returns) refl;
    total_against_itself =
        rw (h.no_returns)
          (total-flat (total_of states nought) p.performance.total_return (h.total_against_itself));
    one_point = store_all-HasOnePoint now _ states p.positions (h.one_point);
  }

  update_positions-IsFlat :
      (pow : F → F → F) (sqrt : F → F) (days : F) (now : ℕ) (p : PortfolioManager F)
      (r : Bool × PortfolioManager F)
      → IsFlat p
      → update_positions pow sqrt days now p ≡ done r
      → IsFlat r.1
  unfolding update_positions
  update_positions-IsFlat pow sqrt days now p r h e = elim (Option-cases p.position_manager) [
    | inl n ↦
        subst (λ (z : Bool × PortfolioManager F). IsFlat z.1)
          (done-injective (false, p) {y = r} (ground (arith, n, e))) h
    | inr (g, s) ↦
        let run : and_then (get_all_positions g) (λ x.
          done (true, updated pow sqrt days now x.0 (record p { position_manager = some x.1 })))
            ≡ done r =
          ground (arith, s, e) in
        let (x, a, b) = and_then-eq-done (get_all_positions g) _ run in
        subst (λ (z : Bool × PortfolioManager F). IsFlat z.1) (done-injective _ b)
          (updated-IsFlat pow sqrt days now x.0 (record p { position_manager = some x.1 })
            (shown h))
  ]

  checked-IsFlat :
      (weights : Table F) (now : ℕ) (p : PortfolioManager F) (o : Option WeightError)
      → IsFlat p
      → IsFlat (rebalance_checked weights now p o).1
  unfolding rebalance_checked
  checked-IsFlat weights now p none h = shown h
  checked-IsFlat weights now p (some e) h = h

  perform-IsFlat :
      (pow : F → F → F) (sqrt : F → F) (c : Call F) (p q : PortfolioManager F)
      → IsFlat p
      → perform pow sqrt c p ≡ done q
      → IsFlat q
  unfolding perform rebalance rebalance_now set_strategy_weights set_config
  perform-IsFlat pow sqrt (updates days now) p q h e =
      let (r, a, b) = and_then-eq-done (update_positions pow sqrt days now p) _ e in
      subst IsFlat (done-injective r.1 b) (update_positions-IsFlat pow sqrt days now p r h a)
  perform-IsFlat pow sqrt (rebalances weights now) p q h e =
      subst IsFlat (done-injective _ e) (checked-IsFlat weights now p (validate_weights weights) h)
  perform-IsFlat pow sqrt (rebalances_now now) p q h e =
      subst IsFlat (done-injective _ e)
        (checked-IsFlat p.strategy_weights now p (validate_weights p.strategy_weights) h)
  perform-IsFlat pow sqrt (sets_weights weights) p q h e =
      subst IsFlat (done-injective _ e) (elim (Option-cases (validate_weights weights)) [
        | inl v ↦ rw (set_strategy_weights, v) (shown h)
        | inr (x, v) ↦ rw (set_strategy_weights, v) h
      ])
  perform-IsFlat pow sqrt (sets_config config) p q h e = subst IsFlat (done-injective _ e) (shown h)
  perform-IsFlat pow sqrt (trades change) p q h e = subst IsFlat (done-injective _ e) (shown h)

  run-IsFlat :
      (pow : F → F → F) (sqrt : F → F) (cs : List (Call F)) (p q : PortfolioManager F)
      → IsFlat p
      → run pow sqrt cs p ≡ done q
      → IsFlat q
  unfolding run
  run-IsFlat pow sqrt [] p q h e = subst IsFlat (done-injective p e) h
  run-IsFlat pow sqrt (c ∷ cs) p q h e =
      let (r, a, b) = and_then-eq-done (perform pow sqrt c p) _ e in
      run-IsFlat pow sqrt cs r q (perform-IsFlat pow sqrt c p r h a) b

  -- After every sequence of calls on a new portfolio manager that returns, whatever happens to the
  -- positions of the shared position manager between the calls, no return has been recorded: the daily and the annualized return, the drawdown and the Sharpe ratio are 0, the total
  -- return is 0 or that of a value against itself, and the history of every position has one point.
  pub never_measures :
      (pow : F → F → F) (sqrt : F → F) (config : PortfolioConfig F)
      (g : Option (Guarded (Positions F))) (now : ℕ) (cs : List (Call F)) (p : PortfolioManager F)
      → run pow sqrt cs (new_portfolio_manager config g now) ≡ done p
      → IsFlat p
  never_measures pow sqrt config g now cs p e =
      run-IsFlat pow sqrt cs (new_portfolio_manager config g now) p (new-IsFlat config g now) e
