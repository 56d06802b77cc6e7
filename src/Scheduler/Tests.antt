-- ===== src/Scheduler/Tests.antt =====
-- Runs of the scheduler of trading/scheduler/scheduler.go.
use expert_octo_enigma.Prelude.{
  ◌%◌, String, ◌≡◌, refl, ◌⊎◌, true, false, Option, none, some, List, [], ◌∷◌, map, arith, eq_iff,
}
use expert_octo_enigma.Prelude.Int.{pos}
use expert_octo_enigma.Lock.{free, done}
use expert_octo_enigma.Scheduler.{State, Error, set_interval}
use expert_octo_enigma.Scheduler.Cycle.{Strategies, Loop, selecting, exited, name_of}
use expert_octo_enigma.Scheduler.Loop.{Event, run, set_interval_stalls}
use expert_octo_enigma.Scheduler.Rounds.{cycles, one_round}

abbrev silent : Strategies
silent = record { execute = λ _. some 0; process = λ _ _. true }

abbrev stopped : State
stopped = record {
  running = false;
  interval = pos 5;
  cron_expr = "";
  enabled = true;
  last_execution = 0;
  execution_count = 0;
  has_manager = true;
  has_provider = true;
  symbols = "sh600000" ∷ "sz000001" ∷ [];
  current_symbol_index = 4;
  ticker = none;
  next_ticker = 1;
  cancelled = true;
}

abbrev ticking : State
ticking = record stopped { running = true; ticker = some 0; cancelled = false }

set_interval_stalls_example :
    (u : State) × (set_interval (some (pos 9)) (record { mu = free; inner = ticking })
      ≡ done (none, record { mu = free; inner = u }))
    × (u.ticker ≡ some 1)
    × ((es : List Event) (k : Loop) (v : State)
        → run silent es (selecting 0, u) ≡ done (k, v)
        → (k ≡ selecting 0) ⊎ (k ≡ exited))
set_interval_stalls_example =
    set_interval_stalls silent 9 0 ticking refl refl (omega arith) (omega arith)

one_round_example :
    (vs : List (Option (String × Option Error))) × (t : State) × (cycles silent
        (8 ∷ 13 ∷ [])
        (record { mu = free; inner = ticking })
      ≡ done (vs, record { mu = free; inner = t }))
    × (map name_of vs ≡ some "sh600000" ∷ some "sz000001" ∷ [])
    × (t.execution_count ≡ 2)
    × (t.current_symbol_index % 2 ≡ 0)
one_round_example =
    one_round silent (8 ∷ 13 ∷ []) ticking refl refl
      (ground (arith, eq_iff "sh600000" ""), (ground (arith, eq_iff "sz000001" ""), tt))
