-- ===== src/AlertSystem/Resolving.antt =====
-- What the statistics of monitoring/alert_manager.go count.
use expert_octo_enigma.Prelude.{
  ℕ, ◌+◌, String, ◌≡◌, Bool, true, false, List, [], ◌∷◌, arith, length, keep, if◌then◌else◌,
}
use expert_octo_enigma.Table.{insert}
use expert_octo_enigma.Float.{Float}
use expert_octo_enigma.Lock.{Outcome, done, blocked, crashed, and_then, and_then-eq-done}
use expert_octo_enigma.AlertSystem.{
  Alert, AlertChannel, AlertSystem, World, check_rate_limit, update_stats, completed,
  should_send_alert, broadcast_alert, send_stored, send_alert,
}
use expert_octo_enigma.AlertSystem.Registry.{add_channel, remove_channel, resolve_alert, get_stats}

-- A call that changes the system.
pub data Call (F : Type 0) : Type 0 where
  sends : Alert F → ℕ → Call F
  resolves : String → ℕ → Call F
  adds : String → AlertChannel → Call F
  removes : String → Call F

-- An alert that is resolved when it is sent, and an alert that is sent.
abbrev pub sends_resolved : {F : Type 0} → Call F → Bool
sends_resolved (sends x now) = x.resolved
sends_resolved _ = false

abbrev pub is_send : {F : Type 0} → Call F → Bool
is_send (sends x now) = true
is_send _ = false

abbrev rest_of : {A : Type 0} {B : Type 0} → Outcome (A × B) → Outcome B
rest_of (done (a, b)) = done b
rest_of blocked = blocked
rest_of crashed = crashed

module _ {F : Type 0} ⦃f : Float F⦄ (world : World F) (decimal : ℕ → String) where
  unfoldable pub perform : Call F → AlertSystem F → Outcome (AlertSystem F)
  unfolding add_channel remove_channel resolve_alert
  perform (sends x now) a = rest_of (send_alert world decimal x now a)
  perform (resolves id now) a = done (resolve_alert id now a).1
  perform (adds name c) a = done (add_channel name c a).1
  perform (removes name) a = done (remove_channel name a).1

  unfoldable pub run : List (Call F) → AlertSystem F → Outcome (AlertSystem F)
  run [] a = done a
  run (c ∷ cs) a = let rest = run cs in and_then (perform c a) rest

  stored_keeps :
      (x : Alert F) (now : ℕ) (a b : AlertSystem F)
      → rest_of (send_stored world x now a) ≡ done b
      → (b.stats.resolved_alerts ≡ a.stats.resolved_alerts)
        × (b.stats.total_alerts ≡ a.stats.total_alerts)
  unfolding send_stored should_send_alert check_rate_limit broadcast_alert
  stored_keeps x now a b h = ground (arith, h)

  perform_counts :
      (c : Call F) (a b : AlertSystem F)
      → perform c a ≡ done b
      → (b.stats.resolved_alerts ≡ a.stats.resolved_alerts + (if sends_resolved c then 1 else 0))
        × (b.stats.total_alerts ≡ a.stats.total_alerts + (if is_send c then 1 else 0))
  unfolding perform send_alert update_stats add_channel remove_channel resolve_alert
  perform_counts (sends x now) a b h =
      let y = completed world decimal now x in
      let a1 = update_stats world y (record a { alerts = insert y.id y a.alerts }) in
      ground (arith, stored_keeps y now a1 b h)
  perform_counts (resolves id now) a b h = ground (arith, h)
  perform_counts (adds name c) a b h = ground (arith, h)
  perform_counts (removes name) a b h = ground (arith, h)

  -- After every sequence of calls that does not panic, the statistics have counted each alert that was
  -- sent, and as resolved just those that were resolved when they were sent: no resolution counts.
  pub resolutions_not_counted :
      (cs : List (Call F)) (now : ℕ) (a b : AlertSystem F)
      → run cs a ≡ done b
      → ((get_stats now b).resolved_alerts
          ≡ a.stats.resolved_alerts + length (keep sends_resolved cs))
        × ((get_stats now b).total_alerts ≡ a.stats.total_alerts + length (keep is_send cs))
  unfolding run get_stats
  resolutions_not_counted [] now a b h = ground (arith, h)
  resolutions_not_counted (c ∷ cs) now a b h =
      let (m, p, q) = and_then-eq-done (perform c a) (run cs) h in
      ground (arith, perform_counts c a m p, resolutions_not_counted cs now m b q)
