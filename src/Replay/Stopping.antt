-- ===== src/Replay/Stopping.antt =====
-- What a second end of a session does in monitoring/replay_engine.go.
use expert_octo_enigma.Prelude.{
  ℕ, ◌<◌, String, ◌≡◌, subst, Bool, true, not, none, some, List, [], ◌∷◌, arith, All, str_eq,
  eq_iff,
}
use expert_octo_enigma.Prelude.Int.{ℤ}
use expert_octo_enigma.Table.{lookup, lookup-insert, lookup-delete}
use expert_octo_enigma.Float.{Float}
use expert_octo_enigma.Lock.{done, crashed, and_then-eq-done, done-injective}
use expert_octo_enigma.Replay.{
  Engine, Choice, Phase, on_tick, on_stop, starting, entering, selecting, exited, tick, stop_case,
  step_from, step, pause_session, resume_session, change_status, stop_session, close_stop,
  delete_session, set_speed, start_session,
}
use expert_octo_enigma.Replay.Calls.{
  Call, starts, pauses, resumes, stops, deletes, speeds, steps, perform, run,
}

-- A call that does not start a session under the ID.
abbrev pub spares : {F : Type 0} → String → Call F → Bool
spares id (starts fetched other symbol start end speed) = not (str_eq other id)
spares id _ = true

-- The session is in the map, and its channel is closed.
pub record IsClosed {F : Type 0} (id : String) (p c : ℕ) (e : Engine F) : Type 0 where
  pub present : lookup id e.sessions ≡ some p
  pub channel : lookup id e.stop_chan ≡ some c
  pub closed : e.closed c ≡ true
  pub old : c < e.next

module _ {F : Type 0} ⦃f : Float F⦄ (truncate : F → ℤ) (id : String) (p c : ℕ) where
  closed_panics :
      (e : Engine F)
      → IsClosed id p c e
      → (stop_session id e ≡ crashed) × (delete_session id e ≡ crashed)
  unfolding stop_session delete_session close_stop
  closed_panics e h = ground (arith, h.present, h.channel, h.closed)

  step-IsClosed :
      (x : Choice) (q : ℕ) (phase : Phase) (e e' : Engine F)
      → IsClosed id p c e
      → step_from truncate x q phase e ≡ done e'
      → IsClosed id p c e'
  unfolding step_from tick stop_case
  step-IsClosed x q starting e e' h r = ground (arith, r, h.present, h.channel, h.closed, h.old)
  step-IsClosed x q entering e e' h r = ground (arith, r, h.present, h.channel, h.closed, h.old)
  step-IsClosed (on_tick now) q (selecting k) e e' h r =
      ground (arith, r, h.present, h.channel, h.closed, h.old)
  step-IsClosed on_stop q (selecting none) e e' h r =
      ground (arith, r, h.present, h.channel, h.closed, h.old)
  step-IsClosed on_stop q (selecting (some k)) e e' h r =
      ground (arith, r, h.present, h.channel, h.closed, h.old)
  step-IsClosed x q exited e e' h r = ground (arith, r, h.present, h.channel, h.closed, h.old)

  perform-IsClosed :
      (x : Call F) (e e' : Engine F)
      → spares id x ≡ true
      → IsClosed id p c e
      → perform truncate x e ≡ done e'
      → IsClosed id p c e'
  unfolding perform pause_session resume_session change_status stop_session close_stop
      delete_session set_speed start_session step
  perform-IsClosed (starts none other symbol start end speed) e e' s h r =
      ground (arith, r, h.present, h.channel, h.closed, h.old)
  perform-IsClosed (starts (some []) other symbol start end speed) e e' s h r =
      ground (arith, r, h.present, h.channel, h.closed, h.old)
  perform-IsClosed (starts (some (y ∷ ys)) other symbol start end speed) e e' s h r = ground (
    arith,
    r,
    s,
    h.present,
    h.channel,
    h.closed,
    h.old,
    lookup-insert other id e.next e.sessions,
    lookup-insert other id e.next e.stop_chan,
  )
  perform-IsClosed (pauses other now) e e' s h r =
      ground (arith, r, h.present, h.channel, h.closed, h.old)
  perform-IsClosed (resumes other now) e e' s h r =
      ground (arith, r, h.present, h.channel, h.closed, h.old)
  perform-IsClosed (stops other) e e' s h r =
      ground (arith, r, h.present, h.channel, h.closed, h.old)
  perform-IsClosed (deletes other) e e' s h r = ground (
    arith,
    r,
    h.present,
    h.channel,
    h.closed,
    h.old,
    eq_iff other id,
    lookup-delete other id e.sessions,
    lookup-delete other id e.stop_chan,
  )
  perform-IsClosed (speeds other speed now) e e' s h r =
      ground (arith, r, h.present, h.channel, h.closed, h.old)
  perform-IsClosed (steps q x) e e' s h r = step-IsClosed x q (e.players q).phase e e' h r

  run-IsClosed :
      (cs : List (Call F)) (e e' : Engine F)
      → All (λ x. spares id x ≡ true) cs
      → IsClosed id p c e
      → run truncate cs e ≡ done e'
      → IsClosed id p c e'
  unfolding run
  run-IsClosed [] e e' s h r = subst (IsClosed id p c) (done-injective e r) h
  run-IsClosed (x ∷ cs) e e' s h r =
      let (m, a, b) = and_then-eq-done (perform truncate x e) (run truncate cs) r in
      run-IsClosed cs m e' s.1 (perform-IsClosed x e m s.0 h a) b

  -- A session that has been stopped can neither be stopped again nor deleted: after every sequence of
  -- calls and steps that does not panic and starts no session under its ID, both calls panic on the
  -- channel that is closed already.
  pub stopped_panics :
      (e e1 e2 : Engine F) (cs : List (Call F))
      → lookup id e.sessions ≡ some p
      → lookup id e.stop_chan ≡ some c
      → c < e.next
      → stop_session id e ≡ done (none, e1)
      → All (λ x. spares id x ≡ true) cs
      → run truncate cs e1 ≡ done e2
      → (stop_session id e2 ≡ crashed) × (delete_session id e2 ≡ crashed)
  unfolding stop_session close_stop
  stopped_panics e e1 e2 cs h k o r s t = closed_panics e2 (
      run-IsClosed cs e1 e2 s
        (record {
          present = ground (arith, h, k, r);
          channel = ground (arith, h, k, r);
          closed = ground (arith, h, k, r);
          old = ground (arith, h, k, o, r);
        })
        t)
