-- ===== src/Signals/Tests.antt =====
-- Runs of trading/signal_handler.go and its theorems at concrete inputs.
use expert_octo_enigma.Prelude.{
  String, ◌≡◌, refl, Bool, true, false, Option, none, some, List, [], ◌∷◌, ◌⊎◌, inl, inr, arith,
}
use expert_octo_enigma.Prelude.Int.{ℤ, pos, ltb_ℤ}
use expert_octo_enigma.Float.Whole.{whole}
use expert_octo_enigma.Float.Signed.{signed}
use expert_octo_enigma.Lock.{Outcome, done, free}
use expert_octo_enigma.RiskManager.{RiskManager, Answers}
use expert_octo_enigma.Executor.{Executor, Broker}
use expert_octo_enigma.Executor.Sends.{SendsOne}
use expert_octo_enigma.Signals.{
  AiSignal, MlSignal, TradingSignal, Handler, SignalError, process_signal, execute_signal,
}
use expert_octo_enigma.Signals.Fusion.{decision_of, sell_counts_as_buy}
use expert_octo_enigma.Signals.Execution.{execute_signal_sends}

abbrev manager : Bool → RiskManager ℤ
manager stop = record {
  config = record {
    initial_capital = pos 1000;
    max_single_position = pos 1;
    max_positions = 3;
    max_daily_loss = pos 0;
    min_order_amount = pos 100;
    stop_loss_percent = pos 0;
  };
  has_history = true;
  daily_pnl = pos 0;
  daily_start_equity = pos 1000;
  emergency_stop = stop;
}

abbrev handler : Bool → Handler ℤ
handler stop = record {
  ai_threshold = pos 0;
  ml_confidence = pos 0;
  has_risk_manager = true;
  executor = record {
    risk = record { mu = free; inner = manager stop };
    positions = record { mu = free; inner = [] };
    placed = [];
    cancelled = [];
  };
}

abbrev sell_signal : AiSignal ℤ
sell_signal = record {
  symbol = "sh600000";
  trend = "下降";
  risk = "低";
  action = "卖出";
  confidence = pos 1;
}

abbrev label_buy : MlSignal ℤ
label_buy = record { symbol = "sh600000"; label = pos 2; confidence = pos 1 }

-- The language model is sure of a sale, the learned model of a purchase: it is bought.
sell_signal_buys :
    decision_of (process_signal none none sell_signal label_buy 0 (handler false))
    ≡ done ("buy", pos 0)
unfolding process_signal expert_octo_enigma.RiskManager.get_risk_metrics
    expert_octo_enigma.Prelude.Int.◌+ℤ◌ expert_octo_enigma.Positions.get_position
    expert_octo_enigma.Table.lookup expert_octo_enigma.Prelude.Int.◌-ℤ◌
sell_signal_buys = refl

sell_counts_as_buy_example :
    decision_of (process_signal none none sell_signal label_buy 0 (handler false))
    ≡ decision_of (
        process_signal none none
          (record sell_signal { trend = "上升"; action = "买入" })
          label_buy
          0
          (handler false))
sell_counts_as_buy_example = sell_counts_as_buy none none sell_signal label_buy 0 (handler false)

abbrev broker : Broker ℤ
broker = record {
  buy = λ _ _ _. some "b1";
  sell = λ _ _ _. some "s1";
  cancel = λ _. true;
  orders = some [];
  trades = some [];
}

abbrev answers : Answers ℤ
answers = record {
  balance = some (record { total_assets = pos 2000; available_cash = pos 2000 });
  second_balance = some (record { total_assets = pos 2000; available_cash = pos 2000 });
  positions = some [];
}

abbrev whole_part : ℤ → ℤ
whole_part x = x

abbrev buy_signal : TradingSignal ℤ
buy_signal = record {
  symbol = "sh600000";
  action = "buy";
  confidence = pos 1;
  ai_action = "买入";
  ai_confidence = pos 1;
  ml_label = pos 2;
  ml_confidence = pos 1;
  timestamp = 0;
}

abbrev answer_of : Outcome ((SignalError ⊎ String) × Handler ℤ) → (SignalError ⊎ String) × Handler ℤ
answer_of (done z) = z
answer_of _ = (inr "", handler false)

abbrev bought : (SignalError ⊎ String) × Handler ℤ
bought =
    answer_of (
      execute_signal whole_part broker answers (some buy_signal) (pos 5) (pos 1000) (handler false))

execute_signal_sends_example :
    (bought.1.executor.placed ≡ [])
    ⊎ (SendsOne "buy" "sh600000" [] bought.1.executor.placed
        × ((buy_signal.action ≡ "sell") ⊎ (ltb_ℤ (pos 1) (pos 0) ≡ false)))
unfolding execute_signal expert_octo_enigma.Executor.execute_buy
    expert_octo_enigma.RiskManager.check_before_order
    expert_octo_enigma.RiskManager.exceeds_daily_loss expert_octo_enigma.Prelude.Int.◌-ℤ◌
execute_signal_sends_example =
    execute_signal_sends whole_part broker answers buy_signal (pos 5) (pos 1000) (handler false)
      bought refl
