-- ===== src/Replay/Calls.antt =====
-- The calls of monitoring/replay_engine.go that change the engine, and their sequences with the steps
-- of the goroutines.
use expert_octo_enigma.Prelude.{ℕ, String, ◌≡◌, subst, Option, List, [], ◌∷◌}
use expert_octo_enigma.Prelude.Int.{ℤ}
use expert_octo_enigma.Float.{Float}
use expert_octo_enigma.Lock.{
  Outcome, done, blocked, crashed, and_then, and_then-eq-done, done-injective,
}
use expert_octo_enigma.Replay.{
  Point, Engine, Choice, pause_session, resume_session, stop_session, delete_session, set_speed,
  start_session, step,
}

pub data Call (F : Type 0) : Type 0 where
  starts : Option (List (Point F)) → String → String → ℕ → ℕ → F → Call F
  pauses resumes : String → ℕ → Call F
  stops deletes : String → Call F
  speeds : String → F → ℕ → Call F
  steps : ℕ → Choice → Call F

abbrev second : {E : Type 0} {A : Type 0} → Outcome (A × E) → Outcome E
second (done (a, e)) = done e
second blocked = blocked
second crashed = crashed

module _ {F : Type 0} ⦃f : Float F⦄ (truncate : F → ℤ) where
  unfoldable pub perform : Call F → Engine F → Outcome (Engine F)
  perform (starts fetched id symbol start end speed) e =
      done (start_session fetched id symbol start end speed e).1
  perform (pauses id now) e = done (pause_session id now e).1
  perform (resumes id now) e = done (resume_session id now e).1
  perform (stops id) e = second (stop_session id e)
  perform (deletes id) e = second (delete_session id e)
  perform (speeds id speed now) e = done (set_speed id speed now e).1
  perform (steps p c) e = step truncate c p e

  unfoldable pub run : List (Call F) → Engine F → Outcome (Engine F)
  run [] e = done e
  run (c ∷ cs) e = let rest = run cs in and_then (perform c e) rest

  -- What every call keeps, every run keeps.
  pub run_keeps :
      (P : Engine F → Type 0)
      → ((c : Call F) (e e' : Engine F) → P e → perform c e ≡ done e' → P e')
      → (cs : List (Call F)) (e e' : Engine F) → P e
      → run cs e ≡ done e'
      → P e'
  unfolding run
  run_keeps P keep [] e e' h r = subst P (done-injective e r) h
  run_keeps P keep (c ∷ cs) e e' h r =
      let (m, a, b) = and_then-eq-done (perform c e) (run cs) r in
      run_keeps P keep cs m e' (keep c e m h a) b
