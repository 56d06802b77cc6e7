-- ===== src/Replay/Tests.antt =====
-- Runs of monitoring/replay_engine.go and its theorems at concrete inputs. Floats are whole numbers.
use expert_octo_enigma.Prelude.{
  ℕ, ◌≤◌, String, ◌≡◌, refl, false, Option, none, some, List, [], ◌∷◌, map, arith, take,
}
use expert_octo_enigma.Prelude.Int.{ℤ, pos}
use expert_octo_enigma.Table.{lookup}
use expert_octo_enigma.Float.Whole.{Whole, whole}
use expert_octo_enigma.Lock.{Outcome, done, crashed}
use expert_octo_enigma.Replay.{
  Signal, Point, Session, Engine, Error, on_tick, on_stop, entering, playing, paused, pause_session,
  stop_session, delete_session, start_session, step, set_speed, get_session, get_signals,
}
use expert_octo_enigma.Replay.Calls.{Call, steps, pauses, run}
use expert_octo_enigma.Replay.Playing.{signals_of, plays_in_order}
use expert_octo_enigma.Replay.Finishing.{rounds, IsFinished, paused_plays_on}
use expert_octo_enigma.Replay.Stopping.{stopped_panics}

abbrev signal : String → Signal Whole
signal type = record {
  timestamp = 1;
  type = type;
  price = some 10;
  quantity = pos 100;
  strategy = "MA_Cross";
  reason = "Mock signal";
}

abbrev point : List (Signal Whole) → Point Whole
point signals = record {
  timestamp = 1;
  open_price = some 9;
  high = some 11;
  low = some 9;
  close = some 10;
  volume = pos 5;
  signals = signals;
}

abbrev series : List (Point Whole)
series = point (signal "buy" ∷ []) ∷ point (signal "sell" ∷ []) ∷ []

abbrev blank : Session Whole
blank = record {
  id = "";
  symbol = "";
  start_date = 0;
  end_date = 0;
  speed = some 1;
  status = "";
  current_time = 0;
  progress = some 0;
  signals = [];
  events = [];
  current_index = 0;
  total_data = 0;
}

abbrev empty : Engine Whole
empty = record {
  heap = λ p. blank;
  sessions = [];
  stop_chan = [];
  closed = λ c. false;
  players = λ p. record { points = []; phase = entering };
  next = 0;
}

abbrev truncated : Whole → ℤ
truncated none = pos 0
truncated (some n) = pos n

abbrev started : ℕ → Engine Whole
started speed = (start_session (some series) "r" "600000" 0 9 (some speed) empty).1

-- The conversion of a speed between 0 and 1 is 0, and the goroutine divides by it.
slow_session_crashes : step truncated (on_tick 1) 0 (started 0) ≡ crashed
unfolding step start_session
slow_session_crashes = refl

abbrev engine_of : Outcome (Engine Whole) → Engine Whole
engine_of (done e) = e
engine_of _ = empty

abbrev entered : Engine Whole
entered = engine_of (step truncated (on_tick 1) 0 (started 2))

-- The first point is played, and then the session is paused.
abbrev playing_calls : List (Call Whole)
playing_calls = steps 0 (on_tick 1) ∷ steps 0 (on_tick 1) ∷ steps 0 (on_tick 1) ∷ pauses "r" 2 ∷ []

abbrev played : Engine Whole
played = engine_of (run truncated playing_calls (started 2))

played_runs : map (λ x. x.type) (played.heap 0).signals ≡ "buy" ∷ []
unfolding run expert_octo_enigma.Replay.Calls.perform step start_session pause_session lookup
    expert_octo_enigma.Table.insert
played_runs = refl

plays_in_order_example :
    ((played.heap 0).current_index ≤ 2)
    × ((played.heap 0).signals ≡ signals_of (take (played.heap 0).current_index series))
unfolding run expert_octo_enigma.Replay.Calls.perform step start_session
plays_in_order_example =
    plays_in_order truncated (point (signal "buy" ∷ [])) (point (signal "sell" ∷ []) ∷ []) "r"
      "600000" 0 9 (some 2) empty played playing_calls refl

-- The goroutine waits in its `select`.
abbrev inside : Engine Whole
inside = engine_of (step truncated (on_tick 1) 0 entered)

paused_plays_on_example :
    let (error, e1) = pause_session "r" 2 inside in
    (error ≡ none)
    × ((e1.heap 0).status ≡ paused)
    × ((e' : Engine Whole) × (run truncated (steps 0 (on_tick 2) ∷ rounds 0 2 2) e1 ≡ done e')
        × IsFinished 0 series e')
unfolding step start_session lookup expert_octo_enigma.Table.insert
paused_plays_on_example =
    paused_plays_on truncated "r" 2 0 2 series inside
      (record { exists = omega arith; its_data = refl; index = omega arith; played = refl }) refl
      refl tt refl

abbrev first_of : Outcome (Option Error × Engine Whole) → Engine Whole
first_of (done (error, e)) = e
first_of _ = empty

abbrev once : Engine Whole
once = first_of (stop_session "r" entered)

abbrev later : List (Call Whole)
later = steps 0 (on_tick 1) ∷ pauses "r" 2 ∷ steps 0 on_stop ∷ []

abbrev gone : Engine Whole
gone = engine_of (run truncated later once)

stopped_panics_example : (stop_session "r" gone ≡ crashed) × (delete_session "r" gone ≡ crashed)
unfolding lookup step start_session expert_octo_enigma.Table.insert stop_session run
    expert_octo_enigma.Replay.Calls.perform pause_session
stopped_panics_example =
    stopped_panics truncated "r" 0 0 entered once gone later refl refl (omega arith) refl
      (refl, (refl, (refl, tt))) refl
