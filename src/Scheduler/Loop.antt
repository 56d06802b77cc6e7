-- ===== src/Scheduler/Loop.antt =====
-- What becomes of the goroutine of trading/scheduler/scheduler.go under the calls that change the
-- ticker.
use expert_octo_enigma.Prelude.{
  ℕ, suc, ◌<◌, String, ◌≡◌, ◌≢◌, refl, ◌⊎◌, inl, Bool, true, false, Option, none, some, List, [],
  ◌∷◌, arith,
}
use expert_octo_enigma.Prelude.Int.{ℤ, pos}
use expert_octo_enigma.Lock.{
  Method, free, and_then, and_then-eq-done, Guarded, Outcome, done, blocked, crashed, ◌>>=◌, pure,
}
use expert_octo_enigma.Scheduler.{
  State, start_error, start, stop, set_strategy_manager, set_market_provider, set_symbols,
  set_enabled, set_interval, set_cron_expression, force_stop,
}
use expert_octo_enigma.Scheduler.Cycle.{
  Strategies, execute_now, execute_cycle_returns, after_cycle_keeps, Loop, entering, selecting,
  cycling, exited, Choice, on_done, loop_step, clock_of,
}

-- A call that can change the state.
pub data Call : Type 0 where
  starts stops force_stops : Call
  sets_manager sets_provider enables : Bool → Call
  sets_symbols : List String → Call
  sets_interval : Option ℤ → Call
  sets_cron : String → Call
  runs_now : ℕ → Call

abbrev ignore : {A : Type 0} → Method State A → Method State (Unit {0})
ignore m = m >>= λ _. pure tt

pub perform : Strategies → Call → Method State (Unit {0})
unfolding start stop force_stop set_strategy_manager set_market_provider set_enabled set_symbols
    set_interval set_cron_expression execute_now
perform strategies starts = ignore start
perform strategies stops = ignore stop
perform strategies force_stops = force_stop
perform strategies (sets_manager b) = set_strategy_manager b
perform strategies (sets_provider b) = set_market_provider b
perform strategies (enables b) = set_enabled b
perform strategies (sets_symbols l) = set_symbols l
perform strategies (sets_interval d) = ignore (set_interval d)
perform strategies (sets_cron e) = ignore (set_cron_expression e)
perform strategies (runs_now now) = ignore (execute_now strategies now)

-- A call of some other goroutine, or a step of the scheduler's.
pub data Event : Type 0 where
  calls : Call → Event
  steps : Choice → Event

-- The state after a call that found the lock free and left it free.
call_state : Outcome (Unit {0} × Guarded State) → Outcome State
call_state (done (a, g)) = done g.inner
call_state blocked = blocked
call_state crashed = crashed

pub event : Strategies → Event → Loop × State → Outcome (Loop × State)
unfolding perform call_state
event strategies (calls c) (l, s) =
    and_then (call_state (perform strategies c (record { mu = free; inner = s })))
      (λ t. done (l, t))
event strategies (steps c) (l, s) = loop_step strategies c l s

pub run : Strategies → List Event → Loop × State → Outcome (Loop × State)
unfolding event
run strategies [] x = done x
run strategies (e ∷ es) x = let rest = run strategies es in and_then (event strategies e x) rest

-- The ticker of number `t` exists and is not the one that ticks.
pub record Frozen (t : ℕ) (s : State) : Type 0 where
  pub old : t < s.next_ticker
  pub other : s.ticker ≢ some t

call-Frozen :
    (strategies : Strategies) (c : Call) (t : ℕ) (s u : State)
    → Frozen t s
    → call_state (perform strategies c (record { mu = free; inner = s })) ≡ done u
    → Frozen t u
unfolding perform call_state
call-Frozen strategies starts t s u z e = ground arith
call-Frozen strategies stops t s u z e = ground arith
call-Frozen strategies force_stops t s u z e = ground arith
call-Frozen strategies (sets_manager b) t s u z e = ground arith
call-Frozen strategies (sets_provider b) t s u z e = ground arith
call-Frozen strategies (enables b) t s u z e = ground arith
call-Frozen strategies (sets_symbols l) t s u z e = ground arith
call-Frozen strategies (sets_interval d) t s u z e = ground arith
call-Frozen strategies (sets_cron x) t s u z e = ground arith
call-Frozen strategies (runs_now now) t s u z e =
    let (a, b, c) = after_cycle_keeps now s in
    ground (arith, execute_cycle_returns strategies now s)

-- The goroutine is blocked on the channel of ticker `t`, or gone.
abbrev pub Idle : ℕ → Loop → Type 0
Idle t l = (l ≡ selecting t) ⊎ (l ≡ exited)

steps-Idle :
    (strategies : Strategies) (c : Choice) (t : ℕ) (l k : Loop) (s u : State)
    → Frozen t s
    → Idle t l
    → loop_step strategies c l s ≡ done (k, u)
    → Frozen t u × Idle t k
unfolding loop_step
steps-Idle strategies c t entering k s u z i e = ground arith
steps-Idle strategies c t (selecting w) k s u z i e = ground arith
steps-Idle strategies c t cycling k s u z i e = ground arith
steps-Idle strategies c t exited k s u z i e = ground arith

event-Idle :
    (strategies : Strategies) (v : Event) (t : ℕ) (l k : Loop) (s u : State)
    → Frozen t s
    → Idle t l
    → event strategies v (l, s) ≡ done (k, u)
    → Frozen t u × Idle t k
unfolding event
event-Idle strategies (calls c) t l k s u z i e =
    let (v, f, g) =
      and_then-eq-done (call_state (perform strategies c (record { mu = free; inner = s }))) _ e in
    let w = call-Frozen strategies c t s v z f in ground (arith, g, w)
event-Idle strategies (steps c) t l k s u z i e = steps-Idle strategies c t l k s u z i e

run-Idle :
    (strategies : Strategies) (es : List Event) (t : ℕ) (l k : Loop) (s u : State)
    → Frozen t s
    → Idle t l
    → run strategies es (l, s) ≡ done (k, u)
    → Idle t k
unfolding run
run-Idle strategies [] t l k s u z i e = ground arith
run-Idle strategies (v ∷ es) t l k s u z i e =
    let ((m, w), f, g) = and_then-eq-done (event strategies v (l, s)) (run strategies es) e in
    let (z', i') = event-Idle strategies v t l m s w z i f in
    run-Idle strategies es t m k w u z' i' g

-- `SetInterval` with a positive duration while the scheduler runs succeeds, and a goroutine that was
-- blocked in its `select` on the ticker before never runs a cycle again: after every later sequence of
-- calls and steps that returns, it is still blocked on that ticker, which has been stopped, or gone.
pub set_interval_stalls :
    (strategies : Strategies) (d t : ℕ) (s : State)
    → s.running ≡ true
    → s.ticker ≡ some t
    → t < s.next_ticker
    → 0 < d
    → (u : State) × (set_interval (some (pos d)) (record { mu = free; inner = s })
        ≡ done (none, record { mu = free; inner = u }))
      × (u.ticker ≡ some s.next_ticker)
      × ((es : List Event) (k : Loop) (v : State)
          → run strategies es (selecting t, u) ≡ done (k, v)
          → (k ≡ selecting t) ⊎ (k ≡ exited))
unfolding set_interval
set_interval_stalls strategies d t s r e lt p =
    let u : State = record s {
      interval = pos d;
      ticker = some s.next_ticker;
      next_ticker = suc s.next_ticker;
    } in
    (
      u,
      ground (arith, r, e, p),
      refl,
      λ es k v f. run-Idle strategies es t (selecting t) k u v (ground (arith, e, lt)) (inl refl) f,
    )

-- After a `Stop`, or a `ForceStop` and `SetEnabled`, the scheduler is cancelled for good: a `Start`
-- with nothing to refuse succeeds, and the goroutine that it starts can take `Done` at its first
-- `select`, which leaves the scheduler stopped without a cycle.
pub restart_exits :
    (strategies : Strategies) (d now : ℕ) (s : State)
    → s.cancelled ≡ true
    → start_error s ≡ none
    → s.interval ≡ pos d
    → 0 < d
    → (u v : State) × (start (record { mu = free; inner = s })
        ≡ done (none, record { mu = free; inner = u }))
      × (run strategies (steps (on_done now) ∷ steps (on_done now) ∷ []) (entering, u)
          ≡ done (exited, v))
      × (v.running ≡ false)
      × (v.execution_count ≡ s.execution_count)
unfolding start run event loop_step
restart_exits strategies d now s c r e p =
    let u : State = record s {
      running = true;
      ticker = some s.next_ticker;
      next_ticker = suc s.next_ticker;
    } in
    (
      u,
      record u { running = false; ticker = none },
      ground (arith, r, e, p),
      ground (arith, c),
      refl,
      refl,
    )

-- A `Stop` during a cycle ends the process: the cycle returns, and the loop then reads the channel of
-- a ticker that is not there.
pub stop_crashes :
    (strategies : Strategies) (c b : Choice) (s : State)
    → s.running ≡ true
    → run strategies (calls stops ∷ steps c ∷ steps b ∷ []) (cycling, s) ≡ crashed
unfolding stop run event loop_step perform call_state
stop_crashes strategies c b s r = ground (
  arith,
  execute_cycle_returns strategies (clock_of c)
      (record s { running = false; ticker = none; cancelled = true }),
)
