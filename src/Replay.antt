-- ===== src/Replay.antt =====
-- monitoring/replay_engine.go: replay sessions, each played by a goroutine of its own. A session is
-- shared by pointer between the map and its goroutine, so sessions stand on a heap. A call, and what
-- the goroutine does between two visits of its `select`, are one step each. Nothing in the program
-- sends on `pauseChan`, so that case of the `select` is never ready, and is left out. `crashed` is a
-- panic.
mod Data
pub mod Calls
pub mod Playing
pub mod Finishing
pub mod Stopping
mod Tests
pub use Data.*
use expert_octo_enigma.Prelude.{
  ℕ, zero, suc, ◌+◌, ◌/◌, String, Bool, true, false, not, ◌&&◌, ◌||◌, Option, none, some, List, [],
  ◌∷◌, ◌++◌, map, leb, ltb, ◌==◌, str_eq, if◌then◌else◌, length, get_elem?, keep,
}
use mathlib.Core.Option
use expert_octo_enigma.Prelude.Int.{ℤ, pos, negsuc}
use expert_octo_enigma.Table.{Table, lookup, insert, delete, values}
use expert_octo_enigma.Float.{Float, nought}
use expert_octo_enigma.Lock.{Outcome, done, crashed}

module _ {F : Type 0} where
  pub set_session : ℕ → Session F → Engine F → Engine F
  set_session p s e = record e { heap = λ q. if q == p then s else e.heap q }

  pub set_phase : ℕ → Phase → Engine F → Engine F
  set_phase p x e = record e {
    players = λ q. if q == p then record (e.players p) { phase = x } else e.players q;
  }

  -- `addEvent`
  abbrev add_event : Event F → Session F → Session F
  add_event v s = record s { events = s.events ++ v ∷ [] }

  abbrev plain : ℕ → String → Event F
  plain now type = record { timestamp = now; type = type; signal = none; speed = none }

  -- `Status = …` and the event that tells of it.
  pub restatus : String → String → ℕ → Session F → Session F
  restatus status type now s = add_event (plain now type) (record s { status = status })

  -- The change of a status, where it is the expected one.
  change_status : String → String → String → Error → String → ℕ → Engine F → Option Error × Engine F
  unfolding restatus set_session
  change_status from to type refusal id now e = elim (lookup id e.sessions) [
    | none ↦ (some no_session, e)
    | some p ↦
        if str_eq (e.heap p).status from
        then (none, set_session p (restatus to type now (e.heap p)) e)
        else (some refusal, e)
  ]

  pub pause_session : String → ℕ → Engine F → Option Error × Engine F
  unfolding change_status
  pause_session id now e = change_status playing paused "pause" not_playing id now e

  pub resume_session : String → ℕ → Engine F → Option Error × Engine F
  unfolding change_status
  resume_session id now e = change_status paused playing "resume" not_paused id now e

  -- `close(stopChan)`, where there is a channel; a second close panics.
  close_stop : String → Engine F → Outcome (Engine F)
  close_stop id e = elim (lookup id e.stop_chan) [
    | none ↦ done e
    | some c ↦ elim (e.closed c) [
      | true ↦ crashed
      | false ↦ done (record e { closed = λ d. if d == c then true else e.closed d })
    ]
  ]

  pub stop_session : String → Engine F → Outcome (Option Error × Engine F)
  unfolding close_stop
  stop_session id e = elim (lookup id e.sessions) [
    | none ↦ done (some no_session, e)
    | some p ↦ elim (close_stop id e) [ done e' ↦ done (none, e') | _ ↦ crashed ]
  ]

  pub delete_session : String → Engine F → Outcome (Option Error × Engine F)
  unfolding close_stop
  delete_session id e = elim (lookup id e.sessions) [
    | none ↦ done (some no_session, e)
    | some p ↦ elim (close_stop id e) [
      | done e' ↦
          done (
            none,
            record e' { sessions = delete id e'.sessions; stop_chan = delete id e'.stop_chan },
          )
      | _ ↦ crashed
    ]
  ]

  -- Copies.
  pub get_session : String → Engine F → Option (Session F)
  get_session id e = Option.map e.heap (lookup id e.sessions)

  pub get_all_sessions : Engine F → List (Session F)
  get_all_sessions e = map e.heap (values e.sessions)

  pub get_events : String → Session F → List (Event F)
  get_events type s = if str_eq type "" then s.events else keep (λ v. str_eq v.type type) s.events

  pub get_signals : String → Session F → List (Signal F)
  get_signals type s =
      if str_eq type "" then s.signals else keep (λ v. str_eq v.type type) s.signals

module _ {F : Type 0} ⦃f : Float F⦄ where
  pub set_speed : String → F → ℕ → Engine F → Option Error × Engine F
  unfolding set_session
  set_speed id speed now e = elim (lookup id e.sessions) [
    | none ↦ (some no_session, e)
    | some p ↦ if f.le speed nought || f.lt (f.lit 100 0) speed then (some invalid_speed, e) else (
      none,
      set_session p
          (add_event (record { timestamp = now; type = "speed"; signal = none; speed = some speed })
            (record (e.heap p) { speed = speed }))
          e,
    )
  ]

  new_session : String → String → ℕ → ℕ → F → List (Point F) → ℕ → Session F
  new_session id symbol start end speed points first = record {
    id = id;
    symbol = symbol;
    start_date = start;
    end_date = end;
    speed = speed;
    status = playing;
    current_time = first;
    progress = nought;
    signals = [];
    events = [];
    current_index = 0;
    total_data = length points;
  }

  -- `fetched` is the provider's answer. The new session, its channel and its goroutine stand at
  -- `e.next`.
  pub start_session :
      Option (List (Point F)) → String → String → ℕ → ℕ → F → Engine F → Option Error × Engine F
  unfolding new_session
  start_session none id symbol start end speed e = (some fetch_failed, e)
  start_session (some []) id symbol start end speed e = (some no_data, e)
  start_session (some (point ∷ rest)) id symbol start end speed e = (
    none,
    record e {
      heap = λ q.
          if q == e.next
          then new_session id symbol start end speed (point ∷ rest) point.timestamp
          else e.heap q;
      sessions = insert id e.next e.sessions;
      stop_chan = insert id e.next e.stop_chan;
      closed = λ q. if q == e.next then false else e.closed q;
      players = λ q.
          if q == e.next then record { points = point ∷ rest; phase = starting } else e.players q;
      next = suc e.next;
    },
  )

  -- `time.NewTicker(time.Second / time.Duration(speed))`, of which `truncate` is the conversion: a
  -- quotient by 0 and a ticker without a positive interval panic.
  pub ticks_at : (F → ℤ) → F → Bool
  ticks_at truncate speed = elim (truncate speed) [
    | pos n ↦ not (n == 0) && leb n 1_000_000_000
    | negsuc n ↦ false
  ]

  -- A signal of the data point, and the event that tells of it.
  play_signals : ℕ → List (Signal F) → Session F → Session F
  play_signals now [] s = s
  play_signals now (x ∷ xs) s = play_signals now xs (
      add_event (record { timestamp = now; type = "signal"; signal = some x; speed = none })
        (record s { signals = s.signals ++ x ∷ [] }))

  -- A data point: the time, the index and the progress, then the signals.
  pub play_point : Point F → ℕ → Session F → Session F
  unfolding play_signals
  play_point point total s =
      let n = suc s.current_index in
      play_signals point.timestamp point.signals (record s {
        current_time = point.timestamp;
        current_index = n;
        progress = f.mul (f.div (f.of_int (pos n)) (f.of_int (pos total))) (f.lit 100 0);
      })

  -- A tick: past the data, the end of the session.
  pub tick : ℕ → List (Point F) → ℕ → Engine F → Engine F
  unfolding play_point restatus set_session set_phase
  tick now points p e = elim (get_elem? points (e.heap p).current_index) [
    | none ↦ set_phase p exited (set_session p (restatus stopped "complete" now (e.heap p)) e)
    | some point ↦
        set_phase p entering (set_session p (play_point point (length points) (e.heap p)) e)
  ]

  stop_case : Option ℕ → ℕ → Engine F → Engine F
  unfolding set_session set_phase
  stop_case none p e = e
  stop_case (some c) p e =
      if e.closed c
      then set_phase p exited (set_session p (record (e.heap p) { status = stopped }) e)
      else e

  -- The goroutine of the session at `p`: it makes its ticker, reads the channel from the map on its
  -- way into the `select`, and takes the case that is ready.
  step_from : (F → ℤ) → Choice → ℕ → Phase → Engine F → Outcome (Engine F)
  unfolding ticks_at tick stop_case set_phase
  step_from truncate c p starting e =
      if ticks_at truncate (e.heap p).speed then done (set_phase p entering e) else crashed
  step_from truncate c p entering e =
      done (set_phase p (selecting (lookup (e.heap p).id e.stop_chan)) e)
  step_from truncate (on_tick now) p (selecting channel) e =
      done (tick now (e.players p).points p e)
  step_from truncate on_stop p (selecting channel) e = done (stop_case channel p e)
  step_from truncate c p exited e = done e

  pub step : (F → ℤ) → Choice → ℕ → Engine F → Outcome (Engine F)
  unfolding step_from
  step truncate c p e = step_from truncate c p (e.players p).phase e
