-- ===== src/Alerts/Tests.antt =====
-- Runs of the alert trigger of trading/risk/realtime/alert_trigger.go.
use expert_octo_enigma.Prelude.{◌≡◌, true, none, some, [], ◌∷◌}
use expert_octo_enigma.Alerts.{
  AlertConfig, AlertFilter, RateLimitConfig, RateLimiter, RiskEvent, AlertTrigger, Senders, admit,
  elapsed,
}
use expert_octo_enigma.Alerts.Limiter.{admit_iff}

abbrev limit : RateLimitConfig
limit = record { max_per_hour = 2; max_per_day = 3; cooldown = 100 }

abbrev limiter : RateLimiter
limiter = record {
  hourly_count = 1;
  daily_count = 1;
  last_alert = 1000;
  hour_start = 900;
  day_start = 900;
}

abbrev filter : AlertFilter
filter = record { min_level = 2; types = "position_warning" ∷ []; symbols = [] }

abbrev to_log : AlertConfig
to_log = record {
  type = "log";
  enabled = true;
  rate_limit = none;
  url = none;
  filter = some filter;
}

abbrev limited : AlertConfig
limited = record to_log { rate_limit = some limit }

abbrev senders : Senders
senders = record { post = λ _ _. true; encodes = λ _. true }

abbrev event : RiskEvent
event = record { type = "position_warning"; level = 3; symbol = "sh600000" }

abbrev logging : AlertTrigger
logging = record { configs = ("log", to_log) ∷ []; rate_limiters = [] }

abbrev limiting : AlertTrigger
limiting = record { configs = ("log", limited) ∷ []; rate_limiters = ("log", limiter) ∷ [] }

admit_iff_example :
    ((admit 1200 limit limiter).0 ≡ true)
    × ((admit 1200 limit limiter).1.hourly_count ≡ 2)
    × ((admit 1200 limit limiter).1.daily_count ≡ 2)
    × ((admit 1200 limit limiter).1.last_alert ≡ 1200)
    × ((admit 1200 limit limiter).1.hour_start ≡ 900)
    × ((admit 1200 limit limiter).1.day_start ≡ 900)
unfolding elapsed admit
admit_iff_example = admit_iff 1200 limit limiter
