-- ===== src/AlertSystem/Tests.antt =====
-- Runs of monitoring/alert_manager.go and its theorems at concrete inputs. Floats are whole numbers.
use expert_octo_enigma.Prelude.{
  ℕ, ◌+◌, ◌*◌, ◌/◌, ◌%◌, String, ◌≡◌, refl, ◌↔◌, Bool, true, false, Option, none, some, List, [],
  ◌∷◌, arith, length, keep, if◌then◌else◌, eq_iff, ◌==◌,
}
use expert_octo_enigma.Prelude.Int.{pos}
use expert_octo_enigma.Table.{lookup}
use expert_octo_enigma.Float.Whole.{Whole, whole}
use expert_octo_enigma.Lock.{Outcome, done, crashed}
use expert_octo_enigma.AlertSystem.{
  Alert, AlertChannel, AlertFilter, AlertSystem, World, count_of, takes, completed, first_match,
  send_alert, admit, tracker_of,
}
use expert_octo_enigma.AlertSystem.Registry.{new_alert_system, get_stats}
use expert_octo_enigma.AlertSystem.Reaching.{send_alert_reaches}
use expert_octo_enigma.AlertSystem.Sending.{send_alert_crashes_iff}
use expert_octo_enigma.AlertSystem.Resolving.{
  Call, sends, resolves, sends_resolved, is_send, run, resolutions_not_counted,
}

-- Hours and days of the clock itself, and webhooks that answer.
abbrev world : World Whole
world = record {
  hour = λ t. t / 3_600_000_000_000 % 24;
  day = λ t. t / 86_400_000_000_000 % 31;
  contains = λ text part. false;
  post = λ url x. true;
}

abbrev digits : ℕ → String
digits n = if n == 7 then "7" else "8"

abbrev noon : ℕ
noon = 1_000_000 * 86_400_000_000_000 + 12 * 3_600_000_000_000

abbrev warning : Alert Whole
warning = record {
  id = "w";
  level = "warning";
  title = "";
  message = "";
  symbol = "600000";
  value = some 1;
  threshold = some 2;
  source = "";
  timestamp = noon;
  resolved = false;
  resolved_at = none;
  metadata = [];
}

abbrev channel : String → String → AlertChannel
channel type level = record {
  type = type;
  enabled = true;
  webhook = some "http://example";
  filters = record { field = "level"; operator = "equals"; value = level } ∷ [];
  rate_limit = record { max_per_hour = pos 10; max_per_day = pos 100; cooldown = pos 5 };
}

-- The email channel asks for critical alerts only.
abbrev system : AlertSystem Whole
system = record new_alert_system {
  channels = ("feishu", channel "feishu" "warning") ∷ ("email", channel "email" "critical") ∷ [];
}

-- The warning reaches the email channel all the same.
send_alert_reaches_example :
    (failed : Bool) × (a : AlertSystem Whole) × (send_alert world digits warning noon system
      ≡ done (failed, a))
    × (count_of "email" a.stats.by_channel
        ≡ 0 + (if takes world (channel "email" "critical") warning then 1 else 0))
unfolding takes lookup new_alert_system expert_octo_enigma.Table.has first_match admit
    expert_octo_enigma.Prelude.Int.◌+ℤ◌
send_alert_reaches_example =
    send_alert_reaches world digits warning noon system (channel "feishu" "warning")
      (channel "feishu" "warning") (channel "email" "critical") "email" (refl, (refl, tt)) refl refl
      refl refl

-- A second feishu channel, under a name of its own.
abbrev misnamed : AlertSystem Whole
misnamed = record new_alert_system { channels = ("ops", channel "feishu" "warning") ∷ [] }

send_alert_crashes_iff_example : (send_alert world digits warning noon misnamed ≡ crashed) ↔ (
    (c : AlertChannel) × (first_match world (completed world digits noon warning) misnamed.channels
      ≡ some c)
    × (lookup c.type misnamed.channels ≡ none))
send_alert_crashes_iff_example = send_alert_crashes_iff world digits warning noon misnamed

misnamed_crashes : send_alert world digits warning noon misnamed ≡ crashed
unfolding send_alert lookup
misnamed_crashes = refl

abbrev calls : List (Call Whole)
calls = sends warning noon ∷ resolves "w" noon ∷ []

abbrev system_of : Outcome (AlertSystem Whole) → AlertSystem Whole
system_of (done a) = a
system_of _ = new_alert_system

abbrev resolved_system : AlertSystem Whole
resolved_system = system_of (run world digits calls system)

resolutions_not_counted_example :
    ((get_stats noon resolved_system).resolved_alerts ≡ 0 + length (keep sends_resolved calls))
    × ((get_stats noon resolved_system).total_alerts ≡ 0 + length (keep is_send calls))
unfolding run expert_octo_enigma.AlertSystem.Resolving.perform send_alert lookup new_alert_system
    expert_octo_enigma.Prelude.Int.◌+ℤ◌
resolutions_not_counted_example =
    resolutions_not_counted world digits calls noon system resolved_system refl
