-- ===== src/Alerts/Names.antt =====
-- The two maps of trading/risk/realtime/alert_trigger.go, the configurations and the limiters: how the
-- calls keep them together, and where they do not.
use expert_octo_enigma.Prelude.{
  ℕ, String, ◌≡◌, refl, inl, inr, Bool, true, false, not, ◌&&◌, Option, none, some, List, [], ◌∷◌,
  arith, length, eq_iff, Option-cases,
}
use expert_octo_enigma.Table.{
  Table, lookup, insert, has, lookup-insert, lookup-delete, has-insert, has-delete, lookup-has-not,
  has-lookup,
}
use expert_octo_enigma.Alerts.{
  AlertConfig, RateLimitConfig, RateLimiter, RiskEvent, AlertTrigger, Senders, add_alert_config,
  update_alert_config, remove_alert_config, check_rate_limit, admit, new_limiter, add_limiter,
  trigger_loop, trigger, get_rate_limit_status,
}
use expert_octo_enigma.Alerts.Limiter.{admitted}

abbrev is_some : Option RateLimitConfig → Bool
is_some none = false
is_some (some limit) = true

abbrev pub needs_limiter : Option AlertConfig → Bool
needs_limiter none = false
needs_limiter (some config) = is_some config.rate_limit

-- No configuration of that name asks for a limited rate without a limiter.
unfoldable pub IsLimited : String → AlertTrigger → Type 0
IsLimited name t = (needs_limiter (lookup name t.configs) && not (has name t.rate_limiters)) ≡ false

kept_once :
    (now : ℕ) (other name : String) (config : AlertConfig) (limiters : Table RateLimiter)
    → has name (check_rate_limit now other config limiters).1 ≡ has name limiters
unfolding check_rate_limit
kept_once now other name config limiters = elim (Option-cases config.rate_limit) [
  | inl e ↦ ground (arith, e)
  | inr (limit, e) ↦ elim (Option-cases (lookup other limiters)) [
    | inl l ↦ ground (arith, e, l)
    | inr (r, l) ↦ ground (
      arith,
      e,
      l,
      has-insert other name (admit now limit r).1 limiters,
      has-lookup other limiters r l,
      eq_iff other name,
    )
  ]
]

kept :
    (senders : Senders) (now : ℕ) (event : RiskEvent) (name : String) (configs : Table AlertConfig)
    (limiters : Table RateLimiter)
    → has name (trigger_loop senders now event configs limiters).1 ≡ has name limiters
unfolding trigger_loop
kept senders now event name [] limiters = refl
kept senders now event name ((other, config) ∷ rest) limiters =
    let after = (check_rate_limit now other config limiters).1 in
    ground (
      arith,
      kept senders now event name rest limiters,
      kept senders now event name rest after,
      kept_once now other name config limiters,
    )

-- `AddAlertConfig`, `RemoveAlertConfig` and `Trigger` keep the limiters together with the configurations:
-- if a configuration of some name that asks for a limited rate has a limiter before, then so it is after.
pub calls-IsLimited :
    (now : ℕ) (other name : String) (config : AlertConfig) (senders : Senders) (event : RiskEvent)
    (t : AlertTrigger)
    → IsLimited name t
    → IsLimited name (add_alert_config now other config t).1
      × IsLimited name (remove_alert_config other t).1
      × IsLimited name (trigger senders now event t).1
unfolding IsLimited add_alert_config remove_alert_config add_limiter trigger
calls-IsLimited now other name config senders event t v = (
  elim (Option-cases config.rate_limit) [
    | inl z ↦ ground (arith, z, v, lookup-insert other name config t.configs, eq_iff other name)
    | inr (l, z) ↦ ground (
      arith,
      z,
      v,
      lookup-insert other name config t.configs,
      has-insert other name (new_limiter now) t.rate_limiters,
      eq_iff other name,
    )
  ],
  ground (
    arith,
    v,
    lookup-delete other name t.configs,
    has-delete other name t.rate_limiters,
    eq_iff other name,
  ),
  ground (arith, v, kept senders now event name t.configs t.rate_limiters),
)

-- The checks of one name at these times.
pub check_all : List ℕ → String → AlertConfig → Table RateLimiter → List Bool × Table RateLimiter
check_all [] name config limiters = ([], limiters)
check_all (now ∷ nows) name config limiters =
    let (b, after) = check_rate_limit now name config limiters in
    let (bs, last) = check_all nows name config after in (b ∷ bs, last)

unlimited :
    (nows : List ℕ) (name : String) (config : AlertConfig) (limiters : Table RateLimiter)
    → lookup name limiters ≡ none
    → admitted (check_all nows name config limiters).0 ≡ length nows
unfolding check_all check_rate_limit
unlimited [] name config limiters e = refl
unlimited (now ∷ nows) name config limiters e = elim (Option-cases config.rate_limit) [
  | inl r ↦ ground (arith, r, unlimited nows name config limiters e)
  | inr (l, r) ↦ ground (arith, r, e, unlimited nows name config limiters e)
]

-- A configuration that was added without a limit and then updated to one with a limit is never limited:
-- both calls succeed, there is no status to report, and every later check is admitted.
pub update_alert_config_unlimited :
    (added : ℕ) (nows : List ℕ) (name : String) (before config : AlertConfig) (t : AlertTrigger)
    → has name t.configs ≡ false
    → has name t.rate_limiters ≡ false
    → before.rate_limit ≡ none
    → let (e, u) = add_alert_config added name before t in
      let (e', v) = update_alert_config name config u in
      (e ≡ none)
      × (e' ≡ none)
      × (lookup name v.configs ≡ some config)
      × (get_rate_limit_status name v ≡ none)
      × (admitted (check_all nows name config v.rate_limiters).0 ≡ length nows)
unfolding add_alert_config update_alert_config add_limiter get_rate_limit_status
update_alert_config_unlimited added nows name before config t h g r =
    let u : AlertTrigger = record t { configs = insert name before t.configs } in
    let first : add_alert_config added name before t ≡ (none, u) = ground (arith, h, r) in
    let v : AlertTrigger = record u { configs = insert name config u.configs } in
    let second : update_alert_config name config u ≡ (none, v) =
      ground (arith, has-insert name name before t.configs, eq_iff name name) in
    let no_limiter = lookup-has-not name t.rate_limiters g in
    rw (first, second)
      (
        refl,
        refl,
        ground (arith, lookup-insert name name config u.configs, eq_iff name name),
        no_limiter,
        unlimited nows name config t.rate_limiters no_limiter,
      )
