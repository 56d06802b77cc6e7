-- ===== src/Alerts.antt =====
-- trading/risk/realtime/alert_trigger.go: the alert configurations, their filters and rate limiters.
-- Each method takes each of its locks once and always in one order (configLock, limiterLock, the
-- limiter's own), so the locks are left out and a call is one step. A time is a number of nanoseconds
-- since the zero time, `now.Sub` of an earlier time is the difference capped at 2^63 - 1, and the
-- readings of the clock do not go back. The two clock readings of a call are taken as one.
pub mod Filter
pub mod Limiter
pub mod Names
mod Tests
use expert_octo_enigma.Prelude.{
  ℕ, suc, ◌+◌, ◌-◌, ◌^◌, String, Bool, true, false, not, ◌&&◌, ◌||◌, Option, none, some, List, [],
  ◌∷◌, if◌then◌else◌, ltb, leb, any, str_eq,
}
use expert_octo_enigma.Table.{Table, lookup, insert, delete, has}

pub record RateLimitConfig : Type 0 where
  pub max_per_hour : ℕ
  pub max_per_day : ℕ
  pub cooldown : ℕ

-- A level is its number.
pub record AlertFilter : Type 0 where
  pub min_level : ℕ
  pub types : List String
  pub symbols : List String

pub record AlertConfig : Type 0 where
  pub type : String
  pub enabled : Bool
  pub rate_limit : Option RateLimitConfig
  pub url : Option String
  pub filter : Option AlertFilter

pub record RateLimiter : Type 0 where
  pub hourly_count : ℕ
  pub daily_count : ℕ
  pub last_alert : ℕ
  pub hour_start : ℕ
  pub day_start : ℕ

pub record AlertTrigger : Type 0 where
  pub configs : Table AlertConfig
  pub rate_limiters : Table RateLimiter

pub record RiskEvent : Type 0 where
  pub type : String
  pub level : ℕ
  pub symbol : String

pub data Error : Type 0 where
  already_exists not_found : Error

pub new_alert_trigger : AlertTrigger
new_alert_trigger = record { configs = []; rate_limiters = [] }

abbrev pub hour : ℕ
hour = 3_600_000_000_000

abbrev pub day : ℕ
day = 86_400_000_000_000

unfoldable pub elapsed : ℕ → ℕ → ℕ
elapsed now start =
    if leb (now - start) 9_223_372_036_854_775_807 then now - start else 9_223_372_036_854_775_807

new_limiter : ℕ → RateLimiter
new_limiter now = record {
  hourly_count = 0;
  daily_count = 0;
  last_alert = 0;
  hour_start = now;
  day_start = now;
}

add_limiter : ℕ → String → AlertConfig → Table RateLimiter → Table RateLimiter
unfolding new_limiter
add_limiter now name config limiters = elim config.rate_limit [
  | none ↦ limiters
  | some limit ↦ insert name (new_limiter now) limiters
]

unfoldable pub add_alert_config :
    ℕ → String → AlertConfig → AlertTrigger → Option Error × AlertTrigger
unfolding add_limiter
add_alert_config now name config t = if has name t.configs then (some already_exists, t) else (
  none,
  record t {
    configs = insert name config t.configs;
    rate_limiters = add_limiter now name config t.rate_limiters;
  },
)

unfoldable pub update_alert_config :
    String → AlertConfig → AlertTrigger → Option Error × AlertTrigger
update_alert_config name config t =
    if has name t.configs
    then (none, record t { configs = insert name config t.configs })
    else (some not_found, t)

unfoldable pub remove_alert_config : String → AlertTrigger → Option Error × AlertTrigger
remove_alert_config name t =
    if has name t.configs
    then (
      none,
      record t { configs = delete name t.configs; rate_limiters = delete name t.rate_limiters },
    )
    else (some not_found, t)

abbrev pub is_empty : List String → Bool
is_empty [] = true
is_empty (x ∷ xs) = false

-- The filter of a configuration that has one.
unfoldable pub passes : RiskEvent → AlertFilter → Bool
passes event filter =
    if ltb event.level filter.min_level
    then false
    else if not (is_empty filter.types) && not (any (λ x. str_eq event.type x) filter.types)
    then false
    else if not (is_empty filter.symbols)
        && not (str_eq event.symbol "")
        && not (any (λ x. str_eq event.symbol x) filter.symbols)
    then false
    else true

unfoldable pub match_filter : RiskEvent → Option AlertFilter → Bool
unfolding passes
match_filter event none = true
match_filter event (some filter) = passes event filter

reset_hour : ℕ → RateLimiter → RateLimiter
reset_hour now r =
    if leb hour (elapsed now r.hour_start)
    then record r { hourly_count = 0; hour_start = now }
    else r

reset_day : ℕ → RateLimiter → RateLimiter
reset_day now r =
    if leb day (elapsed now r.day_start) then record r { daily_count = 0; day_start = now } else r

-- The limiter under its lock: the answer and the limiter after it.
unfoldable pub admit : ℕ → RateLimitConfig → RateLimiter → Bool × RateLimiter
unfolding reset_hour reset_day
admit now limit limiter =
    let r = reset_day now (reset_hour now limiter) in
    if ltb (elapsed now r.last_alert) limit.cooldown
    then (false, r)
    else if leb limit.max_per_hour r.hourly_count
    then (false, r)
    else if leb limit.max_per_day r.daily_count
    then (false, r)
    else (
      true,
      record r {
        hourly_count = r.hourly_count + 1;
        daily_count = r.daily_count + 1;
        last_alert = now;
      },
    )

unfoldable pub check_rate_limit :
    ℕ → String → AlertConfig → Table RateLimiter → Bool × Table RateLimiter
unfolding admit
check_rate_limit now name config limiters = elim config.rate_limit [
  | none ↦ (true, limiters)
  | some limit ↦ elim (lookup name limiters) [
    | none ↦ (true, limiters)
    | some limiter ↦
        let (answer, after) = admit now limit limiter in (answer, insert name after limiters)
  ]
]

-- What a kind of alert answers: the webhook's request is a parameter, and writing the log succeeds
-- once the event could be written as JSON.
pub record Senders : Type 0 where
  pub post : String → RiskEvent → Bool
  pub encodes : RiskEvent → Bool

-- `true` for success.
unfoldable pub send_alert : Senders → AlertConfig → RiskEvent → Bool
send_alert senders config event =
    if str_eq config.type "webhook"
    then elim config.url [
      | none ↦ false
      | some url ↦ senders.encodes event && senders.post url event
    ]
    else if str_eq config.type "log"
    then senders.encodes event
    else str_eq config.type "email"

-- The loop of `Trigger`: the names that were sent to, with the answers, and the limiters.
unfoldable pub trigger_loop :
    Senders
    → ℕ
    → RiskEvent
    → Table AlertConfig
    → Table RateLimiter
    → List (String × Bool) × Table RateLimiter
trigger_loop senders now event [] limiters = ([], limiters)
trigger_loop senders now event ((name, config) ∷ rest) limiters =
    let skipped = not config.enabled || not (match_filter event config.filter) in
    let (admitted, limiters') =
      if skipped then (false, limiters) else check_rate_limit now name config limiters in
    let (sent, limiters'') = trigger_loop senders now event rest limiters' in
    if admitted
    then ((name, send_alert senders config event) ∷ sent, limiters'')
    else (sent, limiters'')

-- `true` for success: no alert failed.
unfoldable pub trigger : Senders → ℕ → RiskEvent → AlertTrigger → Bool × AlertTrigger
unfolding trigger_loop
trigger senders now event t =
    let (sent, limiters) = trigger_loop senders now event t.configs t.rate_limiters in
    (not (any (λ s. not s.1) sent), record t { rate_limiters = limiters })

unfoldable pub get_rate_limit_status : String → AlertTrigger → Option RateLimiter
get_rate_limit_status name t = lookup name t.rate_limiters
