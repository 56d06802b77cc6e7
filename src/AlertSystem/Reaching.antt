-- ===== src/AlertSystem/Reaching.antt =====
-- Which channels of monitoring/alert_manager.go an alert reaches.
use expert_octo_enigma.Prelude.{
  ℕ, suc, ◌+◌, String, ◌≡◌, refl, Bool, true, false, some, [], ◌∷◌, arith, str_eq, eq_iff,
  if◌then◌else◌,
}
use expert_octo_enigma.Table.{Table, lookup, insert, has, Distinct, lookup-insert}
use expert_octo_enigma.Float.{Float}
use expert_octo_enigma.Lock.{done}
use expert_octo_enigma.AlertSystem.{
  Alert, AlertChannel, AlertSystem, World, bump, count_of, admit, tracker_of, check_rate_limit,
  update_stats, takes, count_taken, broadcast_alert, completed, first_match, should_send_alert,
  send_stored, send_alert,
}

count_of-bump :
    (key name : String) (m : Table ℕ)
    → count_of name (bump key m) ≡ count_of name m + (if str_eq key name then 1 else 0)
count_of-bump key name m =
    ground (arith, lookup-insert key name (suc (count_of key m)) m, eq_iff key name)

module _ {F : Type 0} (world : World F) where
  count_taken_absent :
      (x : Alert F) (name : String) (m : Table AlertChannel) (counts : Table ℕ)
      → has name m ≡ false
      → count_of name (count_taken world x m counts) ≡ count_of name counts
  unfolding count_taken has
  count_taken_absent x name [] counts h = refl
  count_taken_absent x name ((other, c) ∷ rest) counts h = ground (
    arith,
    h,
    eq_iff other name,
    count_taken_absent x name rest counts,
    count_taken_absent x name rest (bump other counts),
    count_of-bump other name counts,
  )

  count_taken_lem :
      (x : Alert F) (name : String) (k : AlertChannel) (m : Table AlertChannel) (counts : Table ℕ)
      → Distinct m
      → lookup name m ≡ some k
      → count_of name (count_taken world x m counts)
        ≡ count_of name counts + (if takes world k x then 1 else 0)
  unfolding count_taken lookup
  count_taken_lem x name k [] counts d h = cc
  count_taken_lem x name k ((other, c) ∷ rest) counts d h = ground (
    arith,
    h,
    d.0,
    eq_iff other name,
    count_taken_lem x name k rest counts d.1,
    count_taken_lem x name k rest (bump other counts) d.1,
    count_taken_absent x name rest counts,
    count_taken_absent x name rest (bump other counts),
    count_of-bump other name counts,
  )

module _ {F : Type 0} ⦃f : Float F⦄ (world : World F) where
  -- Where the first enabled channel with a matching filter lets an alert through, every channel of the
  -- system counts the alert once if it is enabled and its sending succeeds, and not otherwise,
  -- whatever its own filters and its own limit are.
  pub send_alert_reaches :
      (decimal : ℕ → String) (alert : Alert F) (now : ℕ) (a : AlertSystem F) (c d k : AlertChannel)
      (name : String)
      → Distinct a.channels
      → first_match world (completed world decimal now alert) a.channels ≡ some c
      → lookup c.type a.channels ≡ some d
      → (admit world d.rate_limit now (tracker_of world c.type now a)).0 ≡ true
      → lookup name a.channels ≡ some k
      → (failed : Bool) × (a' : AlertSystem F) × (send_alert world decimal alert now a
          ≡ done (failed, a'))
        × (count_of name a'.stats.by_channel
            ≡ count_of name a.stats.by_channel
              + (if takes world k (completed world decimal now alert) then 1 else 0))
  unfolding send_alert send_stored should_send_alert check_rate_limit broadcast_alert update_stats
  send_alert_reaches decimal alert now a c d k name u m l ok h =
      let x = completed world decimal now alert in
      let a1 = update_stats world x (record a { alerts = insert x.id x a.alerts }) in
      let t = (admit world d.rate_limit now (tracker_of world c.type now a)).1 in
      let (failed, a2) =
        broadcast_alert world x (record a1 { rate_limits = insert c.type t a1.rate_limits }) in
      (
        failed,
        a2,
        ground (arith, m, l, ok),
        count_taken_lem world x name k a.channels a.stats.by_channel u h,
      )
