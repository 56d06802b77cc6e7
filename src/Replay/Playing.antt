-- ===== src/Replay/Playing.antt =====
-- What a session of monitoring/replay_engine.go plays.
use expert_octo_enigma.Prelude.{
  ℕ, suc, ◌≤◌, ◌<◌, String, ◌≡◌, refl, ◌∙◌, ap, sym, subst, Bool-cases, false, none, some, List, [],
  ◌∷◌, ◌++◌, arith, length, get_elem?, take, take-suc, get_elem?-lt, append_assoc, append-nil,
  Option-cases, inl, inr, ◌==◌,
}
use expert_octo_enigma.Prelude.Int.{ℤ, pos}
use expert_octo_enigma.Float.{Float}
use expert_octo_enigma.Lock.{done, done-injective}
use expert_octo_enigma.Replay.{
  Signal, Point, Session, Engine, Choice, Phase, on_tick, on_stop, starting, entering, selecting,
  exited, play_signals, play_point, add_event, tick, stop_case, step_from, step, pause_session,
  resume_session, change_status, stop_session, close_stop, delete_session, set_speed, start_session,
}
use expert_octo_enigma.Replay.Calls.{
  Call, starts, pauses, resumes, stops, deletes, speeds, steps, perform, run, run_keeps,
}

-- The signals of data points, in order.
abbrev pub signals_of : {F : Type 0} → List (Point F) → List (Signal F)
signals_of [] = []
signals_of (x ∷ xs) = x.signals ++ signals_of xs

signals_of-append :
    {F : Type 0} (xs ys : List (Point F)) → signals_of (xs ++ ys) ≡ signals_of xs ++ signals_of ys
signals_of-append [] ys = refl
signals_of-append (x ∷ xs) ys =
    ap (λ l. x.signals ++ l) (signals_of-append xs ys)
    ∙ sym (append_assoc x.signals (signals_of xs) (signals_of ys))

-- The session at `p` has played the data up to its index, and nothing else.
pub record HasPlayed {F : Type 0} (p : ℕ) (points : List (Point F)) (e : Engine F) : Type 0 where
  pub exists : p < e.next
  pub its_data : (e.players p).points ≡ points
  pub index : (e.heap p).current_index ≤ length points
  pub played : (e.heap p).signals ≡ signals_of (take (e.heap p).current_index points)

module _ {F : Type 0} ⦃f : Float F⦄ where
  play_signals_lem :
      (now : ℕ) (xs : List (Signal F)) (s : Session F)
      → ((play_signals now xs s).signals ≡ s.signals ++ xs)
        × ((play_signals now xs s).current_index ≡ s.current_index)
        × ((play_signals now xs s).id ≡ s.id)
  unfolding play_signals
  play_signals_lem now [] s = (sym (append-nil s.signals), refl, refl)
  play_signals_lem now (x ∷ xs) s =
      let told =
        record (add_event
          (record { timestamp = now; type = "signal"; signal = some x; speed = none })
          (record s { signals = s.signals ++ x ∷ [] })) { id = s.id } in
      let (a, b, c) = play_signals_lem now xs told in (a ∙ append_assoc s.signals (x ∷ []) xs, b, c)

  pub play_point_lem :
      (point : Point F) (total : ℕ) (s : Session F)
      → ((play_point point total s).signals ≡ s.signals ++ point.signals)
        × ((play_point point total s).current_index ≡ suc s.current_index)
        × ((play_point point total s).id ≡ s.id)
  unfolding play_point
  play_point_lem point total s = play_signals_lem point.timestamp point.signals (record s {
    current_time = point.timestamp;
    current_index = suc s.current_index;
    progress =
        f.mul (f.div (f.of_int (pos (suc s.current_index))) (f.of_int (pos total))) (f.lit 100 0);
  })

  signals-suc :
      (n : ℕ) (points : List (Point F)) (x : Point F)
      → get_elem? points n ≡ some x
      → signals_of (take (suc n) points) ≡ signals_of (take n points) ++ x.signals
  signals-suc n points x h =
      ap signals_of (take-suc n points x h)
      ∙ signals_of-append (take n points) (x ∷ [])
      ∙ ap (λ l. signals_of (take n points) ++ l) (append-nil x.signals)

  pub tick-HasPlayed :
      (now p : ℕ) (points : List (Point F)) (e : Engine F)
      → HasPlayed p points e
      → HasPlayed p points (tick now points p e)
  unfolding tick
  tick-HasPlayed now p points e h =
      elim (Option-cases (get_elem? points (e.heap p).current_index)) [
        | inl n ↦ ground (arith, n, h.exists, h.its_data, h.index, h.played)
        | inr (x, n) ↦
            let (a, b, c) = play_point_lem x (length points) (e.heap p) in
            ground (
              arith,
              n,
              a,
              b,
              h.exists,
              h.its_data,
              h.index,
              h.played,
              signals-suc (e.heap p).current_index points x n,
              get_elem?-lt (e.heap p).current_index points x n,
            )
      ]

module _ {F : Type 0} ⦃f : Float F⦄ (truncate : F → ℤ) where
  tick_other :
      (now q p : ℕ) (points shown : List (Point F)) (e : Engine F)
      → (q == p) ≡ false
      → HasPlayed p points e
      → HasPlayed p points (tick now shown q e)
  unfolding tick
  tick_other now q p points shown e d h = ground (arith, d, h.exists, h.its_data, h.index, h.played)

  tick_any :
      (now q p : ℕ) (points : List (Point F)) (e : Engine F)
      → HasPlayed p points e
      → HasPlayed p points (tick now (e.players q).points q e)
  tick_any now q p points e h = elim (Bool-cases (q == p)) [
    | inr d ↦ tick_other now q p points (e.players q).points e d h
    | inl d ↦
        let same : p ≡ q = ground (arith, d) in
        subst (λ k. HasPlayed p points (tick now (e.players k).points k e)) same
          (subst (λ l. HasPlayed p points (tick now l p e)) (sym h.its_data)
            (tick-HasPlayed now p points e h))
  ]

  step_from-HasPlayed :
      (c : Choice) (q p : ℕ) (x : Phase) (points : List (Point F)) (e e' : Engine F)
      → HasPlayed p points e
      → step_from truncate c q x e ≡ done e'
      → HasPlayed p points e'
  unfolding step_from stop_case
  step_from-HasPlayed c q p starting points e e' h r =
      ground (arith, r, h.exists, h.its_data, h.index, h.played)
  step_from-HasPlayed c q p entering points e e' h r =
      ground (arith, r, h.exists, h.its_data, h.index, h.played)
  step_from-HasPlayed (on_tick now) q p (selecting channel) points e e' h r =
      subst (HasPlayed p points) (done-injective _ r) (tick_any now q p points e h)
  step_from-HasPlayed on_stop q p (selecting none) points e e' h r =
      ground (arith, r, h.exists, h.its_data, h.index, h.played)
  step_from-HasPlayed on_stop q p (selecting (some c)) points e e' h r =
      ground (arith, r, h.exists, h.its_data, h.index, h.played)
  step_from-HasPlayed c q p exited points e e' h r =
      ground (arith, r, h.exists, h.its_data, h.index, h.played)

  perform-HasPlayed :
      (p : ℕ) (points : List (Point F)) (c : Call F) (e e' : Engine F)
      → HasPlayed p points e
      → perform truncate c e ≡ done e'
      → HasPlayed p points e'
  unfolding perform pause_session resume_session change_status stop_session close_stop
      delete_session set_speed start_session step
  perform-HasPlayed p points (starts none id symbol start end speed) e e' h r =
      ground (arith, r, h.exists, h.its_data, h.index, h.played)
  perform-HasPlayed p points (starts (some []) id symbol start end speed) e e' h r =
      ground (arith, r, h.exists, h.its_data, h.index, h.played)
  perform-HasPlayed p points (starts (some (x ∷ xs)) id symbol start end speed) e e' h r =
      ground (arith, r, h.exists, h.its_data, h.index, h.played)
  perform-HasPlayed p points (pauses id now) e e' h r =
      ground (arith, r, h.exists, h.its_data, h.index, h.played)
  perform-HasPlayed p points (resumes id now) e e' h r =
      ground (arith, r, h.exists, h.its_data, h.index, h.played)
  perform-HasPlayed p points (stops id) e e' h r =
      ground (arith, r, h.exists, h.its_data, h.index, h.played)
  perform-HasPlayed p points (deletes id) e e' h r =
      ground (arith, r, h.exists, h.its_data, h.index, h.played)
  perform-HasPlayed p points (speeds id speed now) e e' h r =
      ground (arith, r, h.exists, h.its_data, h.index, h.played)
  perform-HasPlayed p points (steps q c) e e' h r =
      step_from-HasPlayed c q p (e.players q).phase points e e' h r

  -- A session that has started shows at all times the signals of the data points up to its index, in
  -- order and each once, and its index is at most the number of points, after every sequence of calls
  -- and of steps of goroutines that does not panic.
  pub plays_in_order :
      (point : Point F) (points : List (Point F)) (id symbol : String) (start end : ℕ) (speed : F)
      (e e' : Engine F) (cs : List (Call F))
      → run truncate cs (start_session (some (point ∷ points)) id symbol start end speed e).1
        ≡ done e'
      → let s = e'.heap e.next in
        (s.current_index ≤ length (point ∷ points))
        × (s.signals ≡ signals_of (take s.current_index (point ∷ points)))
  unfolding start_session
  plays_in_order point points id symbol start end speed e e' cs r =
      let h =
        run_keeps truncate (HasPlayed e.next (point ∷ points))
          (perform-HasPlayed e.next (point ∷ points)) cs _ e'
          (record {
            exists = omega arith;
            its_data = ground arith;
            index = ground arith;
            played = ground arith;
          })
          r in
      (h.index, h.played)
