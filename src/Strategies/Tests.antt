-- ===== src/Strategies/Tests.antt =====
-- Runs of trading/strategies/strategy_manager.go and its theorems at concrete inputs.
use expert_octo_enigma.Prelude.{
  ℕ, String, ◌≡◌, refl, Bool, true, false, Option, none, some, List, [], ◌∷◌, ◌++◌, arith, length,
}
use expert_octo_enigma.Prelude.Int.{ℤ, pos}
use expert_octo_enigma.Float.Signed.{signed}
use expert_octo_enigma.Lock.{Outcome, done, free}
use expert_octo_enigma.RiskManager.{Answers}
use expert_octo_enigma.Executor.{Broker, Placed}
use expert_octo_enigma.Signals.{Handler}
use expert_octo_enigma.Strategies.{
  MarketData, Signal, Generated, generation_failed, no_signal, generated, Strategy, Loader,
  new_signal, new_base_strategy,
}
use expert_octo_enigma.Strategies.Loading.{get_enabled_strategies}
use expert_octo_enigma.Strategies.Combining.{Sorter}
use expert_octo_enigma.Strategies.Managing.{
  Manager, ExecutionResult, get_success_count, execute_strategies, process_signals,
}
use expert_octo_enigma.Strategies.Purchases.{dear_signals_unsent}
use expert_octo_enigma.Strategies.Sending.{OrdersFor, process_signals_sends}

abbrev market : MarketData ℤ
market = record {
  symbol = "sh600000";
  open_price = pos 5;
  high = pos 5;
  low = pos 5;
  close = pos 5;
  volume = pos 100;
  amount = pos 500;
  timestamp = 1;
  pre_close = pos 5;
  change = pos 0;
  change_percent = pos 0;
}

abbrev signal_of : String → ℤ → Signal ℤ
signal_of type strength = record {
  symbol = "sh600000";
  signal_type = type;
  strength = strength;
  price = pos 5;
  target_price = pos 0;
  stop_loss = pos 0;
  has_metadata = true;
  strategy_weight = none;
  strategy_name = none;
  strategy_priority = none;
}

abbrev keep_order : Sorter ℤ
keep_order xs = xs

abbrev strategy_of : Bool → Generated ℤ → Strategy ℤ
strategy_of enabled answer = record {
  name = "s";
  weight = pos 1;
  enabled = enabled;
  parameters = [];
  init = λ _ c. some c;
  update = λ _ c. some c;
  generate = λ _ _. answer;
}

-- Of four strategies one is off, one fails and one has a signal that is not valid.
abbrev manager : Manager ℤ
manager = record {
  loader = record {
    strategies =
        ("a", strategy_of true (generated (signal_of "buy" (pos 1))))
        ∷ ("b", strategy_of true generation_failed)
        ∷ ("c", strategy_of true (generated (signal_of "wait" (pos 1))))
        ∷ ("d", strategy_of false no_signal)
        ∷ [];
    factories = [];
  };
  combination = "vote";
  handler = none;
  last_execution = 0;
  execution_count = 0;
}

abbrev result_or :
    ExecutionResult ℤ × Manager ℤ
    → Outcome (ExecutionResult ℤ × Manager ℤ)
    → ExecutionResult ℤ × Manager ℤ
result_or r (done z) = z
result_or r _ = r

abbrev executed : ExecutionResult ℤ × Manager ℤ
executed =
    result_or
      (
        record {
          timestamp = 0;
          signals = [];
          strategy_count = 0;
          errors = [];
          no_enabled_strategies = false;
        },
        manager,
      )
      (execute_strategies keep_order (λ xs. xs) market 7 manager)

one_success : get_success_count executed.0 ≡ pos 1
unfolding execute_strategies get_success_count get_enabled_strategies
    expert_octo_enigma.Strategies.validate_signal expert_octo_enigma.Strategies.Managing.gather
    expert_octo_enigma.Strategies.Managing.execute_single_strategy
one_success = refl

abbrev handler : Handler ℤ
handler = record {
  ai_threshold = pos 0;
  ml_confidence = pos 0;
  has_risk_manager = true;
  executor = record {
    risk = record {
      mu = free;
      inner = record {
        config = record {
          initial_capital = pos 1000;
          max_single_position = pos 1;
          max_positions = 3;
          max_daily_loss = pos 0;
          min_order_amount = pos 1;
          stop_loss_percent = pos 0;
        };
        has_history = true;
        daily_pnl = pos 0;
        daily_start_equity = pos 1000;
        emergency_stop = false;
      };
    };
    positions = record { mu = free; inner = [] };
    placed = [];
    cancelled = [];
  };
}

abbrev broker : Broker ℤ
broker = record {
  buy = λ _ _ _. some "b1";
  sell = λ _ _ _. some "s1";
  cancel = λ _. true;
  orders = some [];
  trades = some [];
}

abbrev answers : Answers ℤ
answers = record {
  balance = some (record { total_assets = pos 2000; available_cash = pos 2000 });
  second_balance = some (record { total_assets = pos 2000; available_cash = pos 2000 });
  positions = some [];
}

abbrev signals : List (Signal ℤ)
signals = signal_of "buy" (pos 1) ∷ signal_of "hold" (pos 1) ∷ []

abbrev processed_or : Bool × Manager ℤ → Outcome (Bool × Manager ℤ) → Bool × Manager ℤ
processed_or r (done z) = z
processed_or r _ = r

abbrev processed : Bool × Manager ℤ
processed =
    processed_or (false, manager)
      (process_signals (λ x. x) (λ _. broker) (λ _. answers) 7 signals
        (record manager { handler = some handler }))

process_signals_sends_example :
    (processed.0 ≡ true)
    × (k : Handler ℤ) × (added : List (Placed ℤ)) × (processed.1.handler ≡ some k)
    × (k.executor.placed ≡ [] ++ added)
    × OrdersFor signals added
unfolding process_signals expert_octo_enigma.Strategies.validate_signal
    expert_octo_enigma.Signals.execute_signal expert_octo_enigma.Executor.execute_buy
    expert_octo_enigma.RiskManager.check_before_order
    expert_octo_enigma.RiskManager.exceeds_daily_loss expert_octo_enigma.Prelude.Int.◌-ℤ◌
process_signals_sends_example =
    process_signals_sends (λ x. x) (λ _. broker) (λ _. answers) 7 signals
      (record manager { handler = some handler }) handler processed refl refl

abbrev dear_processed : Bool × Manager ℤ
dear_processed =
    processed_or (false, manager)
      (process_signals (λ x. x) (λ _. broker) (λ _. answers) 7 (signal_of "buy" (pos 1) ∷ [])
        (record manager { handler = some handler }))

dear_signals_unsent_example :
    (dear_processed.0 ≡ true)
    × (k : Handler ℤ) × (dear_processed.1.handler ≡ some k)
    × (k.executor.placed ≡ [])
unfolding process_signals expert_octo_enigma.Executor.calculate_quantity
    expert_octo_enigma.Strategies.validate_signal expert_octo_enigma.Signals.execute_signal
    expert_octo_enigma.Executor.execute_buy expert_octo_enigma.RiskManager.check_before_order
    expert_octo_enigma.RiskManager.exceeds_daily_loss expert_octo_enigma.Prelude.Int.◌-ℤ◌
dear_signals_unsent_example =
    dear_signals_unsent (λ x. x) (λ _. broker) (λ _. answers) 7 (signal_of "buy" (pos 1) ∷ [])
      (record manager { handler = some handler }) handler dear_processed refl ((refl, refl), tt)
      refl
