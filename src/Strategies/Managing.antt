-- ===== src/Strategies/Managing.antt =====
-- trading/strategies/strategy_manager.go: the strategy manager runs the enabled strategies, combines
-- their signals and hands the result to the signal handler. `arrive` is the order in which the
-- goroutines' signals come through the channel. `crashed` is a panic: a strategy's signal without
-- metadata. The calls of the handler take the broker's answers by their position.
use expert_octo_enigma.Prelude.{
  ℕ, suc, ◌+◌, String, Bool, true, false, Option, none, some, List, [], ◌∷◌, str_eq, if◌then◌else◌,
  length,
}
use expert_octo_enigma.Prelude.Int.{ℤ, pos, sub_ℕ}
use expert_octo_enigma.Table.{Table}
use expert_octo_enigma.Float.{Float}
use expert_octo_enigma.Lock.{Outcome, done, crashed, and_then}
use expert_octo_enigma.RiskManager.{Answers}
use expert_octo_enigma.Executor.{Broker}
use expert_octo_enigma.Signals.{TradingSignal, Handler, execute_signal}
use expert_octo_enigma.Strategies.{
  Signal, MarketData, StrategyError, not_generated, generation_failed, no_signal, generated,
  Generated, Strategy, Loader, validate_signal,
}
use expert_octo_enigma.Strategies.Loading.{
  get_enabled_strategies, get_strategy_count, get_enabled_strategy_count,
}
use expert_octo_enigma.Strategies.Combining.{Sorter, combine_signals}

pub record Manager (F : Type 0) : Type 0 where
  pub loader : Loader F
  pub combination : String
  pub handler : Option (Handler F)
  pub last_execution : ℕ
  pub execution_count : ℕ

pub record ExecutionResult (F : Type 0) : Type 0 where
  pub timestamp : ℕ
  pub signals : List (Signal F)
  pub strategy_count : ℕ
  pub errors : List StrategyError
  pub no_enabled_strategies : Bool

pub record ManagerStats : Type 0 where
  pub last_execution : ℕ
  pub execution_count : ℕ
  pub strategy_count : ℕ
  pub enabled_count : ℕ
  pub combination_type : String

module _ {F : Type 0} where
  pub new_strategy_manager : Loader F → String → Manager F
  new_strategy_manager loader combination = record {
    loader = loader;
    combination = combination;
    handler = none;
    last_execution = 0;
    execution_count = 0;
  }

  pub set_trading_components : Option (Handler F) → Manager F → Manager F
  set_trading_components handler m = record m { handler = handler }

  pub set_combination_method : String → Manager F → Manager F
  set_combination_method method m = record m { combination = method }

  pub get_combination_method : Manager F → String
  get_combination_method m = m.combination

  pub get_stats : Manager F → ManagerStats
  get_stats m = record {
    last_execution = m.last_execution;
    execution_count = m.execution_count;
    strategy_count = get_strategy_count m.loader;
    enabled_count = get_enabled_strategy_count m.loader;
    combination_type = m.combination;
  }

  pub has_errors : ExecutionResult F → Bool
  has_errors r = elim r.errors [ [] ↦ r.no_enabled_strategies | e ∷ es ↦ true ]

  unfoldable pub get_success_count : ExecutionResult F → ℤ
  get_success_count r = sub_ℕ r.strategy_count (length r.errors)

-- What a goroutine sends: an error or at most one signal.
pub data Sent (F : Type 0) : Type 0 where
  sends_error : StrategyError → Sent F
  sends_nothing : Sent F
  sends_signal : Signal F → Sent F

module _ {F : Type 0} ⦃f : Float F⦄ where
  -- A write to nil metadata panics; the name is written twice, last that of the map.
  unfoldable pub label_signal : String → Strategy F → Signal F → Outcome (Sent F)
  label_signal name strategy s = elim s.has_metadata [
    | false ↦ crashed
    | true ↦ done (
        sends_signal
          (record s { strategy_weight = some strategy.weight; strategy_name = some name }))
  ]

  unfoldable pub checked_signal : String → Strategy F → Signal F → Outcome (Sent F)
  unfolding label_signal
  checked_signal name strategy s = elim (validate_signal s) [
    | some e ↦ done (sends_error e)
    | none ↦ label_signal name strategy s
  ]

  unfoldable pub sent_by : String → Strategy F → Generated F → Outcome (Sent F)
  unfolding checked_signal
  sent_by name strategy generation_failed = done (sends_error not_generated)
  sent_by name strategy no_signal = done sends_nothing
  sent_by name strategy (generated s) = checked_signal name strategy s

  unfoldable pub execute_single_strategy : String → Strategy F → MarketData F → Outcome (Sent F)
  unfolding sent_by
  execute_single_strategy name strategy market =
      sent_by name strategy (strategy.generate strategy.parameters market)

  abbrev pub add_sent :
      Sent F → List (Signal F) × List StrategyError → List (Signal F) × List StrategyError
  add_sent (sends_error e) (signals, errors) = (signals, e ∷ errors)
  add_sent sends_nothing (signals, errors) = (signals, errors)
  add_sent (sends_signal s) (signals, errors) = (s ∷ signals, errors)

  -- The channels, as the goroutines leave them.
  unfoldable pub gather :
      Table (Strategy F) → MarketData F → Outcome (List (Signal F) × List StrategyError)
  gather [] market = done ([], [])
  gather ((name, strategy) ∷ rest) market =
      let more = gather rest market in
      and_then (execute_single_strategy name strategy market)
        (λ sent. and_then more (λ r. done (add_sent sent r)))

  started : ℕ → Manager F → Manager F
  started now m = record m { execution_count = m.execution_count + 1; last_execution = now }

  unfoldable pub result_of :
      Sorter F
      → (List (Signal F) → List (Signal F))
      → MarketData F
      → ℕ
      → ℕ
      → String
      → List (Signal F) × List StrategyError
      → ExecutionResult F
  result_of sort arrive market now count method (signals, errors) = record {
    timestamp = now;
    signals = combine_signals sort method (arrive signals) market;
    strategy_count = count;
    errors = errors;
    no_enabled_strategies = false;
  }

  -- The rest of ExecuteStrategies, at the enabled strategies.
  unfoldable pub run_enabled :
      Sorter F
      → (List (Signal F) → List (Signal F))
      → MarketData F
      → ℕ
      → Manager F
      → Table (Strategy F)
      → Outcome (ExecutionResult F × Manager F)
  unfolding result_of
  run_enabled sort arrive market now n [] = done (
    record {
      timestamp = now;
      signals = [];
      strategy_count = 0;
      errors = [];
      no_enabled_strategies = true;
    },
    n,
  )
  run_enabled sort arrive market now n (e ∷ es) =
      and_then (gather (e ∷ es) market)
        (λ r. done (result_of sort arrive market now (length (e ∷ es)) n.combination r, n))

  unfoldable pub execute_strategies :
      Sorter F
      → (List (Signal F) → List (Signal F))
      → MarketData F
      → ℕ
      → Manager F
      → Outcome (ExecutionResult F × Manager F)
  unfolding started run_enabled
  execute_strategies sort arrive market now m =
      run_enabled sort arrive market now (started now m) (get_enabled_strategies m.loader)

  -- The signal for the handler: 100 to buy with, and the price of the strategy.
  unfoldable pub trading_signal : Signal F → ℕ → TradingSignal F
  trading_signal s now = record {
    symbol = s.symbol;
    action = s.signal_type;
    confidence = s.strength;
    ai_action = "";
    ai_confidence = f.lit 0 0;
    ml_label = pos 0;
    ml_confidence = f.lit 0 0;
    timestamp = now;
  }

  -- One signal; the handler's answer is ignored.
  unfoldable pub process_one :
      (F → ℤ) → Broker F → Answers F → ℕ → Signal F → Handler F → Outcome (Handler F)
  unfolding trading_signal
  process_one to_int broker answers now s h = elim (validate_signal s) [
    | some e ↦ done h
    | none ↦
        if str_eq s.signal_type "buy"
        then and_then
            (execute_signal to_int broker answers (some (trading_signal s now)) s.price
              (f.lit 100 0) h)
            (λ r. done r.1)
        else if str_eq s.signal_type "sell"
        then and_then
            (execute_signal to_int broker answers (some (trading_signal s now)) s.price (f.lit 0 0)
              h)
            (λ r. done r.1)
        else done h
  ]

  unfoldable pub process_all :
      (F → ℤ)
      → (ℕ → Broker F)
      → (ℕ → Answers F)
      → ℕ
      → ℕ
      → List (Signal F)
      → Handler F
      → Outcome (Handler F)
  unfolding process_one
  process_all to_int broker answers now i [] h = done h
  process_all to_int broker answers now i (s ∷ rest) h =
      let more = process_all to_int broker answers now (suc i) rest in
      and_then (process_one to_int (broker i) (answers i) now s h) more

  -- `false` without a signal handler.
  unfoldable pub process_signals :
      (F → ℤ)
      → (ℕ → Broker F)
      → (ℕ → Answers F)
      → ℕ
      → List (Signal F)
      → Manager F
      → Outcome (Bool × Manager F)
  unfolding process_all
  process_signals to_int broker answers now signals m = elim m.handler [
    | none ↦ done (false, m)
    | some h ↦
        and_then (process_all to_int broker answers now 0 signals h)
          (λ k. done (true, record m { handler = some k }))
  ]
