-- ===== src/Signals.antt =====
-- trading/signal_handler.go: the handler that fuses the signals of the language model and of the
-- learned model into a decision, and executes it over the order executor. Its risk manager and its
-- position manager are those of the executor, as the program sets it up. The broker's answers are
-- arguments. Actions, trends and risks are the Chinese words of the source; the texts of reasons are
-- left out. `HasPosition` and the `GetPosition` after it are one reading of the positions.
pub mod Fusion
pub mod Execution
mod Tests
use expert_octo_enigma.Prelude.{
  ℕ, String, Bool, true, false, ◌&&◌, ◌||◌, Option, none, some, List, ◌⊎◌, inl, inr, ◌==◌, str_eq,
  if◌then◌else◌,
}
use expert_octo_enigma.Prelude.Int.{ℤ, pos, negsuc}
use expert_octo_enigma.Float.{Float, nought}
use expert_octo_enigma.Lock.{Outcome, done, and_then}
use expert_octo_enigma.RiskManager.{
  RiskManager, Answers, Balance, Position, RiskMetrics, get_risk_metrics,
}
use expert_octo_enigma.Positions.{Positions, PositionState, get_position, has_position}
use expert_octo_enigma.Executor.{Executor, Broker, ExecutionError, execute_buy, execute_sell}

pub record AiSignal (F : Type 0) : Type 0 where
  pub symbol : String
  pub trend : String
  pub risk : String
  pub action : String
  pub confidence : F

pub record MlSignal (F : Type 0) : Type 0 where
  pub symbol : String
  pub label : ℤ
  pub confidence : F

pub record TradingSignal (F : Type 0) : Type 0 where
  pub symbol : String
  pub action : String
  pub confidence : F
  pub ai_action : String
  pub ai_confidence : F
  pub ml_label : ℤ
  pub ml_confidence : F
  pub timestamp : ℕ

pub record Handler (F : Type 0) : Type 0 where
  pub ai_threshold : F
  pub ml_confidence : F
  pub has_risk_manager : Bool
  pub executor : Executor F

pub data SignalError : Type 0 where
  nil_signal below_threshold no_position unknown_action : SignalError
  not_executed : ExecutionError → SignalError

pub new_signal_handler : {F : Type 0} → F → F → Bool → Executor F → Handler F
new_signal_handler ai_threshold ml_confidence has_risk_manager executor = record {
  ai_threshold = ai_threshold;
  ml_confidence = ml_confidence;
  has_risk_manager = has_risk_manager;
  executor = executor;
}

module _ {F : Type 0} ⦃f : Float F⦄ where
  abbrev one : F
  one = f.lit 1 0

  -- Into the range from 0 to 1.
  pub clamp : F → F
  clamp x = let y = if f.lt one x then one else x in if f.lt y nought then nought else y

  weigh_risk : String → F → F
  weigh_risk risk score =
      if str_eq risk "高"
      then f.mul score (f.lit 5 1)
      else if str_eq risk "中"
      then f.mul score (f.lit 8 1)
      else if str_eq risk "低"
      then f.mul score (f.lit 1 0)
      else score

  weigh_trend : String → String → F → F
  weigh_trend trend action score =
      if str_eq trend "上升" && str_eq action "买入"
      then f.mul score (f.lit 11 1)
      else if str_eq trend "下降" && str_eq action "卖出"
      then f.mul score (f.lit 11 1)
      else score

  pub evaluate_ai_signal : AiSignal F → F
  unfolding clamp weigh_risk weigh_trend
  evaluate_ai_signal s = clamp (weigh_trend s.trend s.action (weigh_risk s.risk s.confidence))

  label_weight : ℤ → F
  label_weight (pos n) =
      if n == 2 then one else if n == 1 then f.lit 5 1 else if n == 0 then f.neg one else nought
  label_weight (negsuc n) = nought

  pub evaluate_ml_signal : MlSignal F → F
  unfolding label_weight
  evaluate_ml_signal s = f.mul (label_weight s.label) s.confidence

  pub decide : F → String × F
  decide total =
      if f.lt one total
      then ("buy", clamp (f.div (f.sub total one) (f.lit 2 0)))
      else if f.lt total (f.neg (f.lit 5 1))
      then ("sell", clamp (f.div (f.sub (f.neg total) (f.lit 5 1)) (f.lit 2 0)))
      else ("hold", clamp (f.sub one (f.add total (f.lit 5 1))))

  pub fuse_signals : AiSignal F → MlSignal F → F → F → ℕ → TradingSignal F
  unfolding decide
  fuse_signals ai ml ai_score ml_score now =
      let (action, confidence) = decide (f.add ai_score ml_score) in
      record {
        symbol = ai.symbol;
        action = action;
        confidence = confidence;
        ai_action = ai.action;
        ai_confidence = ai.confidence;
        ml_label = ml.label;
        ml_confidence = ml.confidence;
        timestamp = now;
      }

  -- Whether the risk manager, if there is one, stops everything.
  stopped : Option (Balance F) → Option (List (Position F)) → Handler F → Outcome (Bool × Handler F)
  stopped balance held h =
      if h.has_risk_manager
      then and_then (get_risk_metrics balance held h.executor.risk) (λ r.
        done (r.0.emergency_stop, record h { executor = record (h.executor) { risk = r.1 } }))
      else done (false, h)

  -- A purchase of what is held already goes on only with a profit.
  held_action : String → Option (PositionState F) → String
  held_action action none = action
  held_action action (some p) =
      if str_eq action "buy"
      then if f.lt nought p.unrealized_pnl then action else "hold"
      else action

  check_position : TradingSignal F → Handler F → Outcome (TradingSignal F × Handler F)
  unfolding held_action
  check_position s h =
      if str_eq s.action "buy" || str_eq s.action "sell"
      then and_then (get_position s.symbol h.executor.positions) (λ r. done (
        record s { action = held_action s.action r.0 },
        record h { executor = record (h.executor) { positions = r.1 } },
      ))
      else done (s, h)

  -- The emergency stop, then the position.
  pub apply_risk_filter :
      Option (Balance F)
      → Option (List (Position F))
      → TradingSignal F
      → Handler F
      → Outcome (TradingSignal F × Handler F)
  unfolding stopped check_position
  apply_risk_filter balance held s h =
      and_then (stopped balance held h)
        (λ r. if r.0 then done (record s { action = "hold" }, r.1) else check_position s r.1)

  pub process_signal :
      Option (Balance F)
      → Option (List (Position F))
      → AiSignal F
      → MlSignal F
      → ℕ
      → Handler F
      → Outcome (TradingSignal F × Handler F)
  unfolding evaluate_ai_signal evaluate_ml_signal fuse_signals apply_risk_filter
  process_signal balance held ai ml now h =
      apply_risk_filter balance held
        (fuse_signals ai ml (evaluate_ai_signal ai) (evaluate_ml_signal ml) now) h

  abbrev carried :
      Handler F → (ExecutionError ⊎ String) × Executor F → (SignalError ⊎ String) × Handler F
  carried h (inl e, x) = (inl (not_executed e), record h { executor = x })
  carried h (inr id, x) = (inr id, record h { executor = x })

  -- All of the position is offered for sale.
  sell_all :
      Broker F
      → String
      → F
      → Option (PositionState F)
      → Handler F
      → Outcome ((SignalError ⊎ String) × Handler F)
  sell_all broker symbol price none h = done (inl no_position, h)
  sell_all broker symbol price (some p) h =
      and_then (execute_sell broker symbol price p.amount h.executor) (λ r. done (carried h r))

  -- A hold has the empty identifier.
  act :
      (F → ℤ)
      → Broker F
      → Answers F
      → TradingSignal F
      → F
      → F
      → Handler F
      → Outcome ((SignalError ⊎ String) × Handler F)
  unfolding sell_all
  act to_int broker answers s price amount h =
      if str_eq s.action "buy"
      then if f.lt s.confidence h.ai_threshold
        then done (inl below_threshold, h)
        else and_then (execute_buy to_int broker answers s.symbol price amount h.executor)
            (λ r. done (carried h r))
      else if str_eq s.action "sell"
      then and_then (get_position s.symbol h.executor.positions) (λ r.
        sell_all broker s.symbol price r.0
          (record h { executor = record (h.executor) { positions = r.1 } }))
      else if str_eq s.action "hold"
      then done (inr "", h)
      else done (inl unknown_action, h)

  unfoldable pub execute_signal :
      (F → ℤ)
      → Broker F
      → Answers F
      → Option (TradingSignal F)
      → F
      → F
      → Handler F
      → Outcome ((SignalError ⊎ String) × Handler F)
  unfolding act
  execute_signal to_int broker answers none price amount h = done (inl nil_signal, h)
  execute_signal to_int broker answers (some s) price amount h =
      act to_int broker answers s price amount h
