-- ===== src/Limits/Tests.antt =====
-- Runs of the limit manager of trading/risk/realtime/risk_limit.go.
use expert_octo_enigma.Prelude.{◌≡◌, refl, true, false, some, [], ◌∷◌}
use expert_octo_enigma.Float.Whole.{Whole, whole}
use expert_octo_enigma.Lock.{done, free}
use expert_octo_enigma.Limits.{
  State, Limit, LimitConfig, Error, not_found, already_exists, limit_of, add_limit, update_limit,
  remove_limit, update_current_value, auto_adjust_thresholds, get_limit, get_current_risk_level,
  new_risk_limit_manager, get_risk_summary, Summary, RiskLevel, critical, high,
}
use expert_octo_enigma.Limits.Levels.{get_current_risk_level_iff}

abbrev position : Limit Whole
position = record {
  name = "position";
  type = "position";
  warning_threshold = some 20;
  critical_threshold = some 30;
  current_value = some 25;
}

abbrev daily : LimitConfig Whole
daily = record {
  name = "daily_loss_limit";
  type = "portfolio";
  warning_threshold = some 8;
  critical_threshold = some 10;
  enable_auto_adjust = false;
  adjust_factor = some 0;
}

abbrev state : State Whole
state = record {
  limits = ("position", position) ∷ [];
  enable_auto_adjust = true;
  adjust_factor = some 1;
}

test_level :
    get_current_risk_level (record { mu = free; inner = state })
    ≡ done (high, record { mu = free; inner = state })
unfolding get_current_risk_level expert_octo_enigma.Limits.level_of
    expert_octo_enigma.Limits.violations_of expert_octo_enigma.Limits.violation
test_level = refl

get_current_risk_level_iff_example :
    get_current_risk_level (record { mu = free; inner = state })
    ≡ done (high, record { mu = free; inner = state })
get_current_risk_level_iff_example = get_current_risk_level_iff state
