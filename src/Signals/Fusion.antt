-- ===== src/Signals/Fusion.antt =====
-- What `ProcessSignal` of trading/signal_handler.go decides.
use expert_octo_enigma.Prelude.{ℕ, String, ◌≡◌, refl, true, Option, some, List, inr, arith}
use expert_octo_enigma.Prelude.Int.{ℤ}
use expert_octo_enigma.Float.{Float, IsOrdered, nought}
use expert_octo_enigma.Lock.{Outcome, done, blocked, crashed, free}
use expert_octo_enigma.RiskManager.{Answers, Balance, Position, get_risk_metrics, metrics_of}
use expert_octo_enigma.Executor.{Broker}
use expert_octo_enigma.Signals.{
  AiSignal, MlSignal, TradingSignal, Handler, one, clamp, weigh_trend, evaluate_ai_signal,
  evaluate_ml_signal, decide, fuse_signals, stopped, check_position, apply_risk_filter,
  process_signal, execute_signal, act,
}

-- The action and the confidence that come out.
abbrev pub decision_of : {F : Type 0} → Outcome (TradingSignal F × Handler F) → Outcome (String × F)
decision_of (done (s, h)) = done (s.action, s.confidence)
decision_of blocked = blocked
decision_of crashed = crashed

module _ {F : Type 0} ⦃f : Float F⦄ where
  filter_ignores :
      (balance : Option (Balance F)) (held : Option (List (Position F))) (s : TradingSignal F)
      (word : String) (h : Handler F)
      → decision_of (apply_risk_filter balance held (record s { ai_action = word }) h)
        ≡ decision_of (apply_risk_filter balance held s h)
  unfolding apply_risk_filter check_position
  filter_ignores balance held s word h = ground arith

  -- A signal of the language model to sell in a falling market counts exactly as one to buy in a
  -- rising market of the same risk and confidence: the decision is the same, with whatever the learned
  -- model says.
  pub sell_counts_as_buy :
      (balance : Option (Balance F)) (held : Option (List (Position F))) (s : AiSignal F)
      (ml : MlSignal F) (now : ℕ) (h : Handler F)
      → decision_of
          (process_signal balance held (record s { trend = "下降"; action = "卖出" }) ml now h)
        ≡ decision_of
            (process_signal balance held (record s { trend = "上升"; action = "买入" }) ml now h)
  unfolding process_signal fuse_signals evaluate_ai_signal weigh_trend
  sell_counts_as_buy balance held s ml now h =
      let buy = record s { trend = "上升"; action = "买入" } in
      filter_ignores balance held
        (fuse_signals buy ml (evaluate_ai_signal buy) (evaluate_ml_signal ml) now) "卖出" h

  -- While the emergency stop is set and the risk manager's lock is free, every pair of signals comes
  -- out as a hold, and executing it sends nothing.
  pub emergency_holds :
      (balance : Option (Balance F)) (held : Option (List (Position F))) (ai : AiSignal F)
      (ml : MlSignal F) (now : ℕ) (to_int : F → ℤ) (broker : Broker F) (answers : Answers F)
      (price amount : F) (h : Handler F)
      → h.has_risk_manager ≡ true
      → h.executor.risk.mu ≡ free
      → h.executor.risk.inner.emergency_stop ≡ true
      → (s : TradingSignal F) × (h' : Handler F) × (process_signal balance held ai ml now h
          ≡ done (s, h'))
        × (execute_signal to_int broker answers (some s) price amount h' ≡ done (inr "", h'))
        × (h'.executor.placed ≡ h.executor.placed)
  unfolding process_signal apply_risk_filter stopped get_risk_metrics metrics_of execute_signal act
  emergency_holds balance held ai ml now to_int broker answers price amount h r u e =
      let s = fuse_signals ai ml (evaluate_ai_signal ai) (evaluate_ml_signal ml) now in
      (
        record s { action = "hold" },
        record h {
          executor = record (h.executor) {
            risk = record { mu = free; inner = h.executor.risk.inner };
          };
        },
        ground (arith, r, u, e),
        refl,
        refl,
      )

  clamp_lem :
      (ordered : IsOrdered F) (x : F)
      → f.lt nought one ≡ true
      → f.le (clamp x) (clamp x) ≡ true
      → (f.le nought (clamp x) ≡ true) × (f.le (clamp x) one ≡ true)
  unfolding clamp
  clamp_lem ordered x p n = ground (
    arith,
    n,
    p,
    ordered.lt_nan nought one p,
    ordered.le_total nought one,
    ordered.lt_iff nought one,
    ordered.lt_iff one nought,
    ordered.lt_iff one x,
    ordered.lt_iff x nought,
    ordered.le_total one x,
    ordered.le_total nought x,
  )

  -- A confidence that is a number is between 0 and 1, whatever the score.
  pub confidence_in_range :
      (ordered : IsOrdered F) (total : F)
      → f.lt nought one ≡ true
      → f.le (decide total).1 (decide total).1 ≡ true
      → (f.le nought (decide total).1 ≡ true) × (f.le (decide total).1 one ≡ true)
  unfolding decide
  confidence_in_range ordered total p n = ground (
    arith,
    n,
    clamp_lem ordered (f.div (f.sub total one) (f.lit 2 0)) p,
    clamp_lem ordered (f.div (f.sub (f.neg total) (f.lit 5 1)) (f.lit 2 0)) p,
    clamp_lem ordered (f.sub one (f.add total (f.lit 5 1))) p,
  )
