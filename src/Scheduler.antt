-- ===== src/Scheduler.antt =====
-- trading/scheduler/scheduler.go: the strategy scheduler, its settings under one lock and the
-- goroutine that runs a cycle at each tick. `time.ParseDuration` is an argument's value, `none` where
-- it fails. A ticker is known by its number; all but the one in the state have been stopped, and a
-- stopped ticker never fires. The counters do not reach 2^63.
pub mod Cycle
pub mod Loop
pub mod Rounds
mod Tests
use mathlib.Core.Bool.{◌||◌}
use expert_octo_enigma.Prelude.{
  ℕ, suc, ◌+◌, ◌%◌, String, Bool, true, false, not, Option, none, some, List, [], ◌∷◌, ltb, ◌==◌,
  if◌then◌else◌, length, get_elem?,
}
use expert_octo_enigma.Prelude.Int.{ℤ, pos, negsuc, ltb_ℤ}
use expert_octo_enigma.Lock.{
  Method, Guarded, Outcome, done, blocked, crashed, ◌>>=◌, ◌>>◌, pure, gets, modify, locked,
  r_locked,
}

pub record State : Type 0 where
  pub running : Bool
  pub interval : ℤ
  pub cron_expr : String
  pub enabled : Bool
  pub last_execution : ℕ
  pub execution_count : ℕ
  pub has_manager : Bool
  pub has_provider : Bool
  pub symbols : List String
  pub current_symbol_index : ℕ
  pub ticker : Option ℕ
  pub next_ticker : ℕ
  pub cancelled : Bool

pub data Error : Type 0 where
  invalid_interval already_running no_manager no_provider no_symbols not_running disabled : Error
  execution_failed processing_failed : Error

-- `NewScheduler`
pub new_scheduler : Option ℤ → Option State
new_scheduler none = none
new_scheduler (some duration) = some (record {
  running = false;
  interval = duration;
  cron_expr = "";
  enabled = true;
  last_execution = 0;
  execution_count = 0;
  has_manager = false;
  has_provider = false;
  symbols = [];
  current_symbol_index = 0;
  ticker = none;
  next_ticker = 0;
  cancelled = false;
})

pub set_strategy_manager : Bool → Method State (Unit {0})
set_strategy_manager given = locked (modify (λ s. record s { has_manager = given }))

pub set_market_provider : Bool → Method State (Unit {0})
set_market_provider given = locked (modify (λ s. record s { has_provider = given }))

pub set_symbols : List String → Method State (Unit {0})
set_symbols symbols = locked (modify (λ s. record s { symbols = symbols }))

abbrev pub is_empty : List String → Bool
is_empty [] = true
is_empty (x ∷ xs) = false

-- `time.NewTicker` panics unless the duration is positive.
new_ticker : Method State (Unit {0})
new_ticker g = elim (ltb_ℤ (pos 0) g.inner.interval) [
  | true ↦ done (
    tt,
    record g {
      inner = record (g.inner) {
        ticker = some g.inner.next_ticker;
        next_ticker = suc g.inner.next_ticker;
      };
    },
  )
  | false ↦ crashed
]

-- The checks of `Start`.
unfoldable pub start_error : State → Option Error
start_error s =
    if s.running
    then some already_running
    else if not s.has_manager
    then some no_manager
    else if not s.has_provider
    then some no_provider
    else if is_empty s.symbols
    then some no_symbols
    else none

-- On success the caller has started a goroutine, which stands at `Loop.entering`.
unfoldable pub start : Method State (Option Error)
unfolding new_ticker
start = locked do
  refused ← gets start_error
  elim refused [
    | some e ↦ pure (some e)
    | none ↦ do modify (λ s. record s { running = true }); new_ticker; pure none
  ]

pub stop : Method State (Option Error)
stop = locked do
  running ← gets (λ s. s.running)
  elim running [
    | false ↦ pure (some not_running)
    | true ↦ do
      modify (λ s. record s { running = false; ticker = none; cancelled = true })
      pure none
  ]

pub is_running : Method State Bool
is_running = r_locked (gets (λ s. s.running))

pub set_enabled : Bool → Method State (Unit {0})
set_enabled enabled = locked (modify (λ s. record s { enabled = enabled }))

pub is_enabled : Method State Bool
is_enabled = r_locked (gets (λ s. s.enabled))

abbrev or_empty : Option String → String
or_empty none = ""
or_empty (some x) = x

-- `getCurrentSymbol`: the empty text without symbols.
unfoldable pub current_symbol : State → String
current_symbol s =
    if is_empty s.symbols
    then ""
    else or_empty (get_elem? s.symbols (s.current_symbol_index % length s.symbols))

pub record Stats : Type 0 where
  pub running : Bool
  pub enabled : Bool
  pub interval : ℤ
  pub last_execution : ℕ
  pub execution_count : ℕ
  pub symbols_count : ℕ
  pub current_symbol : String
  pub cron_expression : String

stats_of : State → Stats
stats_of s = record {
  running = s.running;
  enabled = s.enabled;
  interval = s.interval;
  last_execution = s.last_execution;
  execution_count = s.execution_count;
  symbols_count = length s.symbols;
  current_symbol = current_symbol s;
  cron_expression = s.cron_expr;
}

pub get_stats : Method State Stats
unfolding stats_of
get_stats = r_locked (gets stats_of)

-- The zero time, as `none`, unless the scheduler runs; `Add` of a duration.
next_execution : State → Option (ℕ × ℤ)
next_execution s =
    if not s.running || not s.enabled then none else some (s.last_execution, s.interval)

pub get_next_execution_time : Method State (Option (ℕ × ℤ))
unfolding next_execution
get_next_execution_time = r_locked (gets next_execution)

unfoldable pub set_interval : Option ℤ → Method State (Option Error)
unfolding new_ticker
set_interval none = pure (some invalid_interval)
set_interval (some duration) = locked do
  modify (λ s. record s { interval = duration })
  ticking ← gets (λ s. if s.running then s.ticker else none)
  elim ticking [ none ↦ pure none | some t ↦ do new_ticker; pure none ]

pub set_cron_expression : String → Method State (Option Error)
set_cron_expression expr = locked do modify (λ s. record s { cron_expr = expr }); pure none

-- A second read lock inside the first: `GetNextExecutionTime` takes its own.
pub get_status : Method State (Stats × String × Option (ℕ × ℤ))
unfolding get_stats get_next_execution_time
get_status = do
  stats ← get_stats
  r_locked
      do symbol ← gets current_symbol; next ← get_next_execution_time; pure (stats, symbol, next)

pub force_stop : Method State (Unit {0})
force_stop =
    locked
      (modify (λ s. record s { running = false; enabled = false; ticker = none; cancelled = true }))
