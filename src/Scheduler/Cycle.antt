-- ===== src/Scheduler/Cycle.antt =====
-- `executeCycle`, the calls that run strategies at once, and the goroutine `runScheduler` of
-- trading/scheduler/scheduler.go. What the strategies answer is a parameter.
use expert_octo_enigma.Prelude.{
  ℕ, ◌+◌, String, ◌≡◌, ◌≢◌, eq_iff, arith, Bool, true, false, not, Option, none, some, ltb, ◌==◌,
  str_eq, if◌then◌else◌,
}
use expert_octo_enigma.Lock.{
  Method, free, and_then, Outcome, done, crashed, ◌>>=◌, ◌>>◌, pure, gets, modify, locked,
}
use expert_octo_enigma.Scheduler.{
  State, Error, no_manager, no_provider, disabled, execution_failed, processing_failed,
  current_symbol,
}

-- `ExecuteStrategies` gives the number of signals, or fails; `ProcessSignals` succeeds or fails.
pub record Strategies : Type 0 where
  pub execute : String → Option ℕ
  pub process : String → ℕ → Bool

-- `processStrategyResult`
process_result : Strategies → String → ℕ → Option Error
process_result strategies symbol signals =
    if ltb 0 signals
    then if strategies.process symbol signals then none else some processing_failed
    else none

-- `executeStrategiesForSymbol` and then `processStrategyResult`
run_strategies : Strategies → String → State → Option Error
unfolding process_result
run_strategies strategies symbol s =
    if not s.has_manager then some no_manager else elim (strategies.execute symbol) [
      | none ↦ some execution_failed
      | some signals ↦ process_result strategies symbol signals
    ]

-- The market data are made up once a provider is set.
run_symbol : Strategies → String → State → Option Error
unfolding run_strategies
run_symbol strategies symbol s =
    if not s.has_provider then some no_provider else run_strategies strategies symbol s

begin_cycle : ℕ → State → State
begin_cycle now s = record s { execution_count = s.execution_count + 1; last_execution = now }

next_symbol : State → State
next_symbol s = record s { current_symbol_index = s.current_symbol_index + 1 }

-- The symbol that the cycle visits with its outcome, or `none` where there is no symbol to visit.
unfoldable pub execute_cycle : Strategies → ℕ → Method State (Option (String × Option Error))
unfolding begin_cycle next_symbol run_symbol
execute_cycle strategies now = do
  locked (modify (begin_cycle now))
  symbol ← gets current_symbol
  if str_eq symbol "" then pure none else (do
    locked (modify next_symbol)
    outcome ← gets (run_symbol strategies symbol)
    pure (some (symbol, outcome)))

-- The state after a cycle, and what the cycle visits.
unfoldable pub after_cycle : ℕ → State → State
unfolding begin_cycle next_symbol
after_cycle now s =
    let t = begin_cycle now s in if str_eq (current_symbol t) "" then t else next_symbol t

pub visit : Strategies → ℕ → State → Option (String × Option Error)
visit strategies now s =
    let symbol = current_symbol (begin_cycle now s) in
    if str_eq symbol ""
    then none
    else some (symbol, run_symbol strategies symbol (next_symbol (begin_cycle now s)))

-- A cycle that finds the lock free returns, and leaves the lock free.
pub execute_cycle_returns :
    (strategies : Strategies) (now : ℕ) (s : State)
    → execute_cycle strategies now (record { mu = free; inner = s })
      ≡ done (visit strategies now s, record { mu = free; inner = after_cycle now s })
unfolding execute_cycle after_cycle visit
execute_cycle_returns strategies now s = ground arith

pub after_cycle_keeps :
    (now : ℕ) (s : State)
    → ((after_cycle now s).ticker ≡ s.ticker)
      × ((after_cycle now s).next_ticker ≡ s.next_ticker)
      × ((after_cycle now s).symbols ≡ s.symbols)
unfolding after_cycle
after_cycle_keeps now s = ground arith

abbrev pub name_of : Option (String × Option Error) → Option String
name_of none = none
name_of (some x) = some x.0

-- A cycle at a symbol that is not the empty text.
pub cycle_at :
    (strategies : Strategies) (now : ℕ) (x : String) (s : State)
    → current_symbol s ≡ x
    → x ≢ ""
    → (name_of (visit strategies now s) ≡ some x)
      × ((after_cycle now s).current_symbol_index ≡ s.current_symbol_index + 1)
      × ((after_cycle now s).execution_count ≡ s.execution_count + 1)
      × ((after_cycle now s).symbols ≡ s.symbols)
unfolding visit after_cycle current_symbol
cycle_at strategies now x s e z = ground (arith, e, eq_iff x "")

unfoldable pub execute_now : Strategies → ℕ → Method State (Option Error)
unfolding execute_cycle
execute_now strategies now = do
  enabled ← gets (λ s. s.enabled)
  elim enabled [
    | false ↦ pure (some disabled)
    | true ↦ do visited ← execute_cycle strategies now; pure none
  ]

pub execute_symbol : Strategies → String → Method State (Option Error)
unfolding run_symbol
execute_symbol strategies symbol = do
  enabled ← gets (λ s. s.enabled)
  if enabled then gets (run_symbol strategies symbol) else pure (some disabled)

-- Where the goroutine stands: before the `select`, which reads the ticker's channel; blocked in the
-- `select` on the channel of a ticker; in a cycle; or gone.
pub data Loop : Type 0 where
  entering cycling exited : Loop
  selecting : ℕ → Loop

-- The case that is ready in the `select`, with the clock of the cycle that follows.
pub data Choice : Type 0 where
  on_done on_tick : ℕ → Choice

abbrev is_ticker : Option ℕ → ℕ → Bool
is_ticker none t = false
is_ticker (some u) t = u == t

-- The deferred function of `runScheduler`.
leave : State → State
leave s = record s { running = false; ticker = none }

-- A case that is not ready leaves the goroutine where it is.
select_step : Choice → ℕ → State → Loop × State
unfolding leave
select_step (on_done now) t s = if s.cancelled then (exited, leave s) else (selecting t, s)
select_step (on_tick now) t s =
    if is_ticker s.ticker t
    then if s.enabled then (cycling, s) else (entering, s)
    else (selecting t, s)

abbrev pub clock_of : Choice → ℕ
clock_of (on_done now) = now
clock_of (on_tick now) = now

-- One step of the goroutine while nobody holds the lock.
unfoldable pub loop_step : Strategies → Choice → Loop → State → Outcome (Loop × State)
unfolding select_step execute_cycle
loop_step strategies c entering s = elim s.ticker [
  | none ↦ crashed
  | some t ↦ done (selecting t, s)
]
loop_step strategies c (selecting t) s = done (select_step c t s)
loop_step strategies c cycling s =
    and_then (execute_cycle strategies (clock_of c) (record { mu = free; inner = s }))
      (λ r. done (entering, r.1.inner))
loop_step strategies c exited s = done (exited, s)
