-- ===== src/Replay/Finishing.antt =====
-- A session of monitoring/replay_engine.go plays to its end, paused or not.
use expert_octo_enigma.Prelude.{
  ℕ, zero, suc, ◌+◌, ◌<◌, String, ◌≡◌, refl, ◌∙◌, true, Option, none, some, List, [], ◌∷◌, arith,
  length, take-all, get_elem?-some, get_elem?-none, eq_iff,
}
use expert_octo_enigma.Prelude.Int.{ℤ}
use expert_octo_enigma.Table.{lookup}
use expert_octo_enigma.Float.{Float}
use expert_octo_enigma.Lock.{done}
use expert_octo_enigma.Replay.{
  Point, Session, Engine, Phase, on_tick, starting, entering, selecting, exited, ticks_at, stopped,
  paused, playing, restatus, set_session, set_phase, tick, step_from, step, pause_session,
  change_status,
}
use expert_octo_enigma.Replay.Calls.{Call, steps, perform, run}
use expert_octo_enigma.Replay.Playing.{HasPlayed, signals_of, play_point_lem, tick-HasPlayed}

module _ {F : Type 0} where
  -- Each round takes the goroutine into its `select` and through a tick.
  abbrev pub rounds : ℕ → ℕ → ℕ → List (Call F)
  rounds p now zero = []
  rounds p now (suc n) = steps p (on_tick now) ∷ steps p (on_tick now) ∷ rounds p now n

  -- The steps by which the goroutine plays what is left: it makes its ticker before the rounds, or it
  -- waits in its `select` and takes a tick first.
  abbrev pub to_end : Phase → ℕ → ℕ → ℕ → List (Call F)
  to_end starting p now left = steps p (on_tick now) ∷ rounds p now (suc left)
  to_end entering p now left = rounds p now (suc left)
  to_end (selecting channel) p now left = steps p (on_tick now) ∷ rounds p now left
  to_end exited p now left = []

  -- The session at `p` has shown the signals of all of its data and stopped.
  pub record IsFinished (p : ℕ) (points : List (Point F)) (e : Engine F) : Type 0 where
    pub gone : (e.players p).phase ≡ exited
    pub status : (e.heap p).status ≡ stopped
    pub index : (e.heap p).current_index ≡ length points
    pub played : (e.heap p).signals ≡ signals_of points

  -- In the `select`.
  abbrev selected : ℕ → Engine F → Engine F
  selected p e = set_phase p (selecting (lookup (e.heap p).id e.stop_chan)) e

module _ {F : Type 0} ⦃f : Float F⦄ (truncate : F → ℤ) where
  round_runs :
      (now p : ℕ) (points : List (Point F)) (cs : List (Call F)) (e : Engine F)
      → (e.players p).phase ≡ entering
      → (e.players p).points ≡ points
      → run truncate (steps p (on_tick now) ∷ steps p (on_tick now) ∷ cs) e
        ≡ run truncate cs (tick now points p (selected p e))
  unfolding run perform step step_from set_phase
  round_runs now p points cs e h k = ground (arith, h, k)

  selected-HasPlayed :
      (p : ℕ) (points : List (Point F)) (e : Engine F)
      → HasPlayed p points e
      → HasPlayed p points (selected p e)
  unfolding set_phase
  selected-HasPlayed p points e h = ground (arith, h.exists, h.its_data, h.index, h.played)

  tick_plays :
      (now p : ℕ) (points : List (Point F)) (e : Engine F)
      → (e.heap p).current_index < length points
      → let e' = tick now points p e in
        ((e'.players p).phase ≡ entering)
        × ((e'.heap p).current_index ≡ suc (e.heap p).current_index)
  unfolding tick set_phase set_session
  tick_plays now p points e l =
      let (x, n) = get_elem?-some (e.heap p).current_index points l in
      ground (arith, n, play_point_lem x (length points) (e.heap p))

  tick_finishes :
      (now p : ℕ) (points : List (Point F)) (e : Engine F)
      → HasPlayed p points e
      → (e.heap p).current_index ≡ length points
      → IsFinished p points (tick now points p e)
  unfolding tick set_phase set_session restatus
  tick_finishes now p points e h l = ground (
    arith,
    l,
    h.played,
    get_elem?-none (e.heap p).current_index points (omega (arith, l)),
    take-all (e.heap p).current_index points (omega (arith, l)),
  )

  selected_index :
      (p : ℕ) (e : Engine F) → ((selected p e).heap p).current_index ≡ (e.heap p).current_index
  unfolding set_phase
  selected_index p e = refl

  finishes :
      (now p left : ℕ) (points : List (Point F)) (e : Engine F)
      → HasPlayed p points e
      → (e.players p).phase ≡ entering
      → (e.heap p).current_index + left ≡ length points
      → (e' : Engine F) × (run truncate (rounds p now (suc left)) e ≡ done e')
        × IsFinished p points e'
  unfolding run
  finishes now p zero points e h x l = (
    tick now points p (selected p e),
    round_runs now p points [] e x h.its_data,
    tick_finishes now p points (selected p e) (selected-HasPlayed p points e h)
        (omega (arith, l, selected_index p e)),
  )
  finishes now p (suc left) points e h x l =
      let i = selected_index p e in
      let (y, m) = tick_plays now p points (selected p e) (omega (arith, l, i)) in
      let (e', r, z) =
        finishes now p left points (tick now points p (selected p e))
          (tick-HasPlayed now p points (selected p e) (selected-HasPlayed p points e h)) y
          (omega (arith, l, m, i)) in
      (e', round_runs now p points (rounds p now (suc left)) e x h.its_data ∙ r, z)

  -- The goroutine is not gone, and where it is still to make its ticker, it can.
  abbrev pub Lives : Phase → Session F → Type 0
  Lives starting s = ticks_at truncate s.speed ≡ true
  Lives entering s = Unit
  Lives (selecting channel) s = Unit
  Lives exited s = ⊥

  selecting_finishes :
      (now p left : ℕ) (channel : Option ℕ) (points : List (Point F)) (e : Engine F)
      → HasPlayed p points e
      → (e.players p).phase ≡ selecting channel
      → (e.heap p).current_index + left ≡ length points
      → (e' : Engine F) × (run truncate (steps p (on_tick now) ∷ rounds p now left) e ≡ done e')
        × IsFinished p points e'
  unfolding run perform step step_from
  selecting_finishes now p zero channel points e h x l = (
    tick now points p e,
    ground (arith, x, h.its_data),
    tick_finishes now p points e h (omega (arith, l)),
  )
  selecting_finishes now p (suc left) channel points e h x l =
      let (y, m) = tick_plays now p points e (omega (arith, l)) in
      let (e', r, z) =
        finishes now p left points (tick now points p e) (tick-HasPlayed now p points e h) y
          (omega (arith, l, m)) in
      let first : run truncate (steps p (on_tick now) ∷ rounds p now (suc left)) e
          ≡ run truncate (rounds p now (suc left)) (tick now points p e) =
        ground (arith, x, h.its_data) in
      (e', first ∙ r, z)

  starting_finishes :
      (now p left : ℕ) (points : List (Point F)) (e : Engine F)
      → HasPlayed p points e
      → (e.players p).phase ≡ starting
      → ticks_at truncate (e.heap p).speed ≡ true
      → (e.heap p).current_index + left ≡ length points
      → (e' : Engine F) × (run truncate (steps p (on_tick now) ∷ rounds p now (suc left)) e
          ≡ done e')
        × IsFinished p points e'
  unfolding run perform step step_from set_phase
  starting_finishes now p left points e h x t l =
      let (e', r, z) =
        finishes now p left points (set_phase p entering e)
          (ground (arith, h.exists, h.its_data, h.index, h.played)) (ground arith) l in
      let first : run truncate (steps p (on_tick now) ∷ rounds p now (suc left)) e
          ≡ run truncate (rounds p now (suc left)) (set_phase p entering e) =
        ground (arith, x, t) in
      (e', first ∙ r, z)

  plays_to_end :
      (x : Phase) (now p left : ℕ) (points : List (Point F)) (e : Engine F)
      → HasPlayed p points e
      → (e.players p).phase ≡ x
      → Lives x (e.heap p)
      → (e.heap p).current_index + left ≡ length points
      → (e' : Engine F) × (run truncate (to_end x p now left) e ≡ done e') × IsFinished p points e'
  plays_to_end starting now p left points e h x t l = starting_finishes now p left points e h x t l
  plays_to_end entering now p left points e h x t l = finishes now p left points e h x l
  plays_to_end (selecting channel) now p left points e h x t l =
      selecting_finishes now p left channel points e h x l
  plays_to_end exited now p left points e h x t l = absurd t

  pause-HasPlayed :
      (id : String) (now p : ℕ) (points : List (Point F)) (e : Engine F)
      → HasPlayed p points e
      → let e' = (pause_session id now e).1 in
        HasPlayed p points e'
        × ((e'.players p).phase ≡ (e.players p).phase)
        × ((e'.heap p).current_index ≡ (e.heap p).current_index)
        × ((e'.heap p).speed ≡ (e.heap p).speed)
  unfolding pause_session change_status restatus set_session
  pause-HasPlayed id now p points e h = ground (arith, h.exists, h.its_data, h.index, h.played)

  Lives-speed : (x : Phase) (s t : Session F) → t.speed ≡ s.speed → Lives x s → Lives x t
  Lives-speed starting s t e h = rw e h
  Lives-speed entering s t e h = tt
  Lives-speed (selecting channel) s t e h = tt
  Lives-speed exited s t e h = absurd h

  -- A pause of a playing session, which has shown the signals of its data up to its index, succeeds and
  -- the session is then paused, yet its goroutine plays on, wherever it stands, unless it is gone or has still to make its ticker and cannot: a tick for each
  -- data point that is left and one more, with the steps in between, make it show the signals of all
  -- its data and stop.
  pub paused_plays_on :
      (id : String) (now p left : ℕ) (points : List (Point F)) (e : Engine F)
      → HasPlayed p points e
      → lookup id e.sessions ≡ some p
      → (e.heap p).status ≡ playing
      → Lives (e.players p).phase (e.heap p)
      → (e.heap p).current_index + left ≡ length points
      → let (error, e1) = pause_session id now e in
        (error ≡ none)
        × ((e1.heap p).status ≡ paused)
        × ((e' : Engine F) × (run truncate (to_end (e.players p).phase p now left) e1 ≡ done e')
            × IsFinished p points e')
  unfolding pause_session change_status restatus set_session
  paused_plays_on id now p left points e h k s x l =
      let (h', same, l', v) = pause-HasPlayed id now p points e h in
      let e1 = (pause_session id now e).1 in
      (
        ground (arith, k, s, eq_iff (e.heap p).status playing),
        ground (arith, k, s, eq_iff (e.heap p).status playing),
        plays_to_end (e.players p).phase now p left points e1 h' same
            (Lives-speed (e.players p).phase (e.heap p) (e1.heap p) v x) (omega (arith, l, l')),
      )
