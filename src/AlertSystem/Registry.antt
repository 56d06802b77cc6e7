-- ===== src/AlertSystem/Registry.antt =====
-- The channels, the alerts and the statistics of monitoring/alert_manager.go.
use expert_octo_enigma.Prelude.{
  ℕ, ◌*◌, String, Bool, true, false, not, Option, none, some, List, [], ◌∷◌, str_eq, if◌then◌else◌,
  length, keep,
}
use expert_octo_enigma.Prelude.Int.{ℤ, pos}
use expert_octo_enigma.Table.{Table, lookup, insert, delete, has, values}
use expert_octo_enigma.AlertSystem.{Alert, AlertFilter, AlertChannel, AlertStats, AlertSystem}

-- The channels that the constructor adds, all of them off.
filter_level : String → AlertFilter
filter_level level = record { field = "level"; operator = "equals"; value = level }

abbrev minutes : ℕ → ℤ
minutes n = pos (n * 60_000_000_000)

default_channels : Table AlertChannel
unfolding filter_level
default_channels =
    (
      "feishu",
      record {
        type = "feishu";
        enabled = false;
        webhook = some "";
        filters = filter_level "error" ∷ filter_level "critical" ∷ [];
        rate_limit = record { max_per_hour = pos 10; max_per_day = pos 100; cooldown = minutes 5 };
      },
    )
    ∷ (
      "dingding",
      record {
        type = "dingding";
        enabled = false;
        webhook = some "";
        filters = filter_level "warning" ∷ filter_level "error" ∷ filter_level "critical" ∷ [];
        rate_limit = record { max_per_hour = pos 20; max_per_day = pos 200; cooldown = minutes 3 };
      },
    )
    ∷ (
      "email",
      record {
        type = "email";
        enabled = false;
        webhook = none;
        filters = filter_level "critical" ∷ [];
        rate_limit = record { max_per_hour = pos 5; max_per_day = pos 50; cooldown = minutes 30 };
      },
    )
    ∷ []

unfoldable pub new_alert_system : {F : Type 0} → AlertSystem F
unfolding default_channels
new_alert_system = record {
  alerts = [];
  channels = default_channels;
  rate_limits = [];
  stats = record {
    total_alerts = 0;
    active_alerts = 0;
    resolved_alerts = 0;
    by_level = [];
    by_channel = [];
    last_alert = 0;
  };
}

module _ {F : Type 0} where
  -- An empty type is refused.
  unfoldable pub add_channel : String → AlertChannel → AlertSystem F → Bool × AlertSystem F
  add_channel name c a =
      if str_eq c.type ""
      then (false, a)
      else (true, record a { channels = insert name c a.channels })

  unfoldable pub remove_channel : String → AlertSystem F → Bool × AlertSystem F
  remove_channel name a =
      if has name a.channels
      then (true, record a { channels = delete name a.channels })
      else (false, a)

  pub get_alert : String → AlertSystem F → Option (Alert F)
  get_alert id a = lookup id a.alerts

  pub get_all_alerts : AlertSystem F → Table (Alert F)
  get_all_alerts a = a.alerts

  unfoldable pub get_active_alerts : AlertSystem F → List (Alert F)
  get_active_alerts a = keep (λ x. not x.resolved) (values a.alerts)

  unfoldable pub resolve_alert : String → ℕ → AlertSystem F → Bool × AlertSystem F
  resolve_alert id now a = elim (lookup id a.alerts) [
    | none ↦ (false, a)
    | some x ↦ (
      true,
      record a {
        alerts = insert id (record x { resolved = true; resolved_at = some now }) a.alerts;
      },
    )
  ]

  unfoldable pub get_stats : ℕ → AlertSystem F → AlertStats
  unfolding get_active_alerts
  get_stats now a = record (a.stats) {
    active_alerts = length (get_active_alerts a);
    last_alert = now;
  }
