-- ===== src/RiskManager.antt =====
-- trading/risk_manager.go: the risk manager under its lock. The broker's answers to
-- `GetCachedBalance` and `GetCachedPositions` are arguments, `none` for an error. The goroutine that
-- closes the positions in an emergency is `emergency_close_positions`; saving the day's result is the
-- row that `update_daily_pnl` hands over. Balances come without an error only with a value.
mod Data
pub mod Approval
pub mod Emergency
pub mod Reports
mod Tests
pub use Data.*
use expert_octo_enigma.Prelude.{
  ℕ, suc, ◌+◌, ◌⊎◌, inl, inr, String, Bool, true, false, not, ◌&&◌, Option, none, some, List, [],
  ◌∷◌, map, if◌then◌else◌, length, leb, str_eq,
}
use expert_octo_enigma.Prelude.Int.{ℤ, pos}
use expert_octo_enigma.Float.{Float, nought}
use expert_octo_enigma.Lock.{
  Method, Outcome, done, blocked, crashed, ◌>>=◌, ◌>>◌, pure, gets, modify, locked, r_locked, free,
  Guarded,
}

module _ {F : Type 0} ⦃f : Float F⦄ where
  default_risk_config : RiskConfig F
  default_risk_config = record {
    initial_capital = f.lit 100 0;
    max_single_position = f.lit 3 1;
    max_positions = 3;
    max_daily_loss = f.lit 1 1;
    min_order_amount = f.lit 100 0;
    stop_loss_percent = f.lit 5 2;
  }

  init_daily_equity : Option (Balance F) → RiskManager F → RiskManager F
  init_daily_equity none m = record m { daily_start_equity = m.config.initial_capital }
  init_daily_equity (some b) m = record m { daily_start_equity = b.total_assets }

  unfoldable pub new_risk_manager : RiskConfig F → Bool → Option (Balance F) → RiskManager F
  unfolding init_daily_equity default_risk_config
  new_risk_manager config history balance = init_daily_equity balance (record {
    config = if f.eq config.initial_capital nought then default_risk_config else config;
    has_history = history;
    daily_pnl = nought;
    daily_start_equity = nought;
    emergency_stop = false;
  })

  -- The loss of the day, relative to the equity at its start.
  unfoldable pub loss_percent : RiskManager F → Balance F → F
  loss_percent m b =
      if f.lt nought m.daily_start_equity
      then f.div (f.sub b.total_assets m.daily_start_equity) m.daily_start_equity
      else nought

  unfoldable pub exceeds_daily_loss : RiskManager F → Balance F → Bool
  unfolding loss_percent
  exceeds_daily_loss m b = f.lt (loss_percent m b) (f.neg m.config.max_daily_loss)

  unfoldable pub check_daily_loss : Option (Balance F) → Method (RiskManager F) (Option RiskError)
  check_daily_loss none = pure (some no_balance)
  check_daily_loss (some b) = do
    exceeded ← gets (λ m. exceeds_daily_loss m b)
    elim exceeded [
      | false ↦ pure none
      | true ↦ do
        locked (modify (λ m. record m { emergency_stop = true }))
        pure (some daily_loss_exceeded)
    ]

  unfoldable pub max_single_amount : RiskManager F → F
  max_single_amount m = f.mul m.config.initial_capital m.config.max_single_position

  -- The loop over the positions and the test after it; `all` is the whole list.
  unfoldable pub check_positions :
      RiskManager F → OrderRequest F → List (Position F) → List (Position F) → Option RiskError
  check_positions m order all [] =
      if leb m.config.max_positions (length all) then some max_positions_exceeded else none
  check_positions m order all (p ∷ rest) =
      let later = check_positions m order all rest in
      if str_eq p.symbol order.symbol
      then if f.lt (max_single_amount m)
          (f.add (f.mul (f.of_int p.amount) p.current_price) (f.of_int order.amount))
        then some max_position_exceeded
        else none
      else later

  unfoldable pub check_buy_order : Answers F → OrderRequest F → RiskManager F → Option RiskError
  check_buy_order answers order m = elim answers.second_balance [
    | none ↦ some no_balance
    | some b ↦
        if f.lt b.available_cash (f.of_int order.amount)
        then some insufficient_cash
        else if f.lt (max_single_amount m) (f.of_int order.amount)
        then some max_position_exceeded
        else elim answers.positions [
          | none ↦ some no_positions
          | some ps ↦ check_positions m order ps ps
        ]
  ]

  -- What follows the check of the daily loss.
  unfoldable pub check_amounts : Answers F → OrderRequest F → RiskManager F → Option RiskError
  unfolding check_buy_order
  check_amounts answers order m =
      if f.lt (f.of_int order.amount) m.config.min_order_amount
      then some min_order_amount
      else if str_eq order.type "buy"
      then check_buy_order answers order m
      else none

  unfoldable pub check_before_order :
      Answers F → OrderRequest F → Method (RiskManager F) (Option RiskError)
  unfolding check_daily_loss
  check_before_order answers order = r_locked do
    stopped ← gets (λ m. m.emergency_stop)
    elim stopped [
      | true ↦ pure (some emergency_stopped)
      | false ↦ do
        loss ← check_daily_loss answers.balance
        elim loss [ some e ↦ pure (some e) | none ↦ gets (check_amounts answers order) ]
    ]

  -- The orders to sell that the goroutine places, one for each position.
  pub emergency_close_positions : Option (List (Position F)) → List (String × F × ℤ)
  emergency_close_positions none = []
  emergency_close_positions (some ps) = map (λ p. (p.symbol, p.current_price, p.amount)) ps

  abbrev pub loses : RiskManager F → Position F → Bool
  loses m p = f.lt (f.div p.profit_percent (f.lit 100 0)) (f.neg m.config.stop_loss_percent)

  unfoldable pub stop_loss_symbols : RiskManager F → List (Position F) → List String
  stop_loss_symbols m [] = []
  stop_loss_symbols m (p ∷ ps) =
      let rest = stop_loss_symbols m ps in if loses m p then p.symbol ∷ rest else rest

  -- `inl` is the error.
  unfoldable pub check_position_loss :
      Option (List (Position F)) → Method (RiskManager F) (RiskError ⊎ List String)
  check_position_loss positions = r_locked do
    stopped ← gets (λ m. m.emergency_stop)
    elim stopped [
      | true ↦ pure (inl emergency_stopped)
      | false ↦ elim positions [
        | none ↦ pure (inl no_positions)
        | some ps ↦ gets (λ m. inr (stop_loss_symbols m ps))
      ]
    ]

  row_of : RiskManager F → Balance F → DailyPnl F
  row_of m b =
      let pnl = f.sub b.total_assets m.daily_start_equity in
      record {
        open_equity = m.daily_start_equity;
        close_equity = b.total_assets;
        pnl = pnl;
        pnl_percent = f.div pnl m.daily_start_equity;
      }

  -- The result and the row that is saved; `none` for the error.
  unfoldable pub update_daily_pnl :
      Option (Balance F) → Method (RiskManager F) (Option (F × Option (DailyPnl F)))
  unfolding row_of
  update_daily_pnl none = pure none
  update_daily_pnl (some b) = locked do
    modify (λ m. record m { daily_pnl = f.sub b.total_assets m.daily_start_equity })
    gets (λ m. some (m.daily_pnl, if m.has_history then some (row_of m b) else none))

  unfoldable pub metrics_of :
      Option (Balance F) → Option (List (Position F)) → RiskManager F → RiskMetrics F
  metrics_of balance positions m = record {
    initial_capital = m.config.initial_capital;
    current_equity = elim balance [ none ↦ nought | some b ↦ b.total_assets ];
    daily_pnl = m.daily_pnl;
    daily_pnl_percent = elim balance [
      | none ↦ nought
      | some b ↦
          if f.lt nought m.daily_start_equity
          then f.div m.daily_pnl m.daily_start_equity
          else nought
    ];
    position_count = elim positions [ none ↦ 0 | some ps ↦ length ps ];
    emergency_stop = m.emergency_stop;
  }

  unfoldable pub get_risk_metrics :
      Option (Balance F) → Option (List (Position F)) → Method (RiskManager F) (RiskMetrics F)
  unfolding metrics_of
  get_risk_metrics balance positions = r_locked (gets (metrics_of balance positions))

  summary_of : F → F → F → PortfolioSummary F
  summary_of total start pnl = record {
    total_value = total;
    daily_pnl = pnl;
    daily_pnl_percent = if f.lt nought start then f.div pnl start else nought;
    drawdown =
        if f.lt nought start && f.lt total start then f.div (f.sub start total) start else nought;
  }

  -- The configuration never changes, so it is read without the lock.
  unfoldable pub get_portfolio_summary :
      Option (Balance F) → Method (RiskManager F) (PortfolioSummary F)
  unfolding summary_of
  get_portfolio_summary balance = do
    (start, pnl) ← r_locked (gets (λ m. (m.daily_start_equity, m.daily_pnl)))
    elim balance [
      | none ↦ gets (λ m. summary_of m.config.initial_capital start pnl)
      | some b ↦ pure (summary_of b.total_assets start (f.sub b.total_assets start))
    ]

  unfoldable pub reset_daily : Option (Balance F) → Method (RiskManager F) (Unit {0})
  unfolding init_daily_equity
  reset_daily balance = locked (
      modify (λ m. record (init_daily_equity balance (record m { emergency_stop = false })) {
        daily_pnl = nought;
      }))

  unfoldable pub set_emergency_stop : Bool → Method (RiskManager F) (Unit {0})
  set_emergency_stop stop = locked (modify (λ m. record m { emergency_stop = stop }))
