-- ===== src/AlertSystem/Sending.antt =====
-- When the sending of an alert panics in monitoring/alert_manager.go.
use expert_octo_enigma.Prelude.{ℕ, String, ◌≡◌, ◌↔◌, none, some, arith, inl, inr, Option-cases}
use expert_octo_enigma.Table.{lookup}
use expert_octo_enigma.Float.{Float}
use expert_octo_enigma.Lock.{crashed}
use expert_octo_enigma.AlertSystem.{
  Alert, AlertChannel, AlertSystem, World, check_rate_limit, update_stats, completed, first_match,
  should_send_alert, send_stored, send_alert,
}

module _ {F : Type 0} ⦃f : Float F⦄ (world : World F) where
  stored_crashes_iff :
      (x : Alert F) (now : ℕ) (a : AlertSystem F)
      → (send_stored world x now a ≡ crashed) ↔ (
          (c : AlertChannel) × (first_match world x a.channels ≡ some c)
          × (lookup c.type a.channels ≡ none))
  unfolding send_stored should_send_alert check_rate_limit
  stored_crashes_iff x now a = elim (Option-cases (first_match world x a.channels)) [
    | inl n ↦ (λ h. ground (arith, n, h), λ (c, m, l). ground (arith, n, m))
    | inr (c, m) ↦ elim (Option-cases (lookup c.type a.channels)) [
      | inl l ↦ (λ h. (c, m, l), λ h. ground (arith, m, l))
      | inr (d, l) ↦ (λ h. ground (arith, m, l, h), λ (c', m', l'). ground (arith, m, l, m', l'))
    ]
  ]

  -- Sending panics exactly when no channel stands under the name that is the type of the first enabled
  -- channel with a matching filter: a channel that was added under another name than its type.
  pub send_alert_crashes_iff :
      (decimal : ℕ → String) (alert : Alert F) (now : ℕ) (a : AlertSystem F)
      → (send_alert world decimal alert now a ≡ crashed) ↔ (
          (c : AlertChannel) × (first_match world (completed world decimal now alert) a.channels
            ≡ some c)
          × (lookup c.type a.channels ≡ none))
  unfolding send_alert update_stats
  send_alert_crashes_iff decimal alert now a =
      stored_crashes_iff (completed world decimal now alert) now _
