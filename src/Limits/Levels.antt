-- ===== src/Limits/Levels.antt =====
-- The violations, the level and the summary that trading/risk/realtime/risk_limit.go reports.
use expert_octo_enigma.Prelude.{
  ◌+◌, ◌≤◌, String, ◌≡◌, refl, Bool, false, not, ◌&&◌, [], ◌∷◌, arith, if◌then◌else◌, length, any,
  keep,
}
use expert_octo_enigma.Table.{Table}
use expert_octo_enigma.Float.{Float}
use expert_octo_enigma.Lock.{done, free}
use expert_octo_enigma.Limits.{
  State, Limit, RiskLevel, low, high, critical, Summary, is_critical, is_high, violation,
  violations_of, check_violations, level_of, get_current_risk_level, count_levels, get_risk_summary,
}

module _ {F : Type 0} ⦃f : Float F⦄ where
  abbrev pub over_critical : String × Limit F → Bool
  over_critical e = f.le e.1.critical_threshold e.1.current_value

  -- Over the warning threshold, and not over the critical one.
  abbrev pub over_warning : String × Limit F → Bool
  over_warning e = not (over_critical e) && f.le e.1.warning_threshold e.1.current_value

  any_critical :
      (t : Table (Limit F)) → any (λ e. is_critical e.level) (violations_of t) ≡ any over_critical t
  unfolding violations_of violation
  any_critical [] = refl
  any_critical ((k, l) ∷ t) = ground (arith, any_critical t)

  any_high :
      (t : Table (Limit F)) → any (λ e. is_high e.level) (violations_of t) ≡ any over_warning t
  unfolding violations_of violation
  any_high [] = refl
  any_high ((k, l) ∷ t) = ground (arith, any_high t)

  counts :
      (t : Table (Limit F))
      → ((count_levels (violations_of t)).0 ≡ length (keep over_critical t))
        × ((count_levels (violations_of t)).1 ≡ length (keep over_warning t))
        × (length (violations_of t) ≡ length (keep over_critical t) + length (keep over_warning t))
        × (length (keep over_critical t) + length (keep over_warning t) ≤ length t)
  unfolding violations_of violation count_levels
  counts [] = ground arith
  counts ((k, l) ∷ t) = ground (arith, counts t)

  -- Some event is of level critical or high where there is an event at all.
  some_level :
      (t : Table (Limit F))
      → any over_critical t ≡ false
      → any over_warning t ≡ false
      → length (violations_of t) ≡ 0
  unfolding violations_of violation
  some_level [] c w = refl
  some_level ((k, l) ∷ t) c w = ground (arith, some_level t)

  -- The level of a table as the thresholds say it.
  abbrev pub expected_level : Table (Limit F) → RiskLevel
  expected_level t =
      if any over_critical t then critical else if any over_warning t then high else low

  level_of_violations : (t : Table (Limit F)) → level_of (violations_of t) ≡ expected_level t
  unfolding level_of
  level_of_violations t = ground (arith, any_critical t, any_high t, some_level t)

  -- `GetCurrentRiskLevel` on a free lock returns and leaves the state alone: it says critical exactly
  -- if some limit's value reaches the critical threshold, else high exactly if some value reaches the
  -- warning threshold, else low, and never medium.
  pub get_current_risk_level_iff :
      (s : State F)
      → get_current_risk_level (record { mu = free; inner = s })
        ≡ done (expected_level s.limits, record { mu = free; inner = s })
  unfolding get_current_risk_level check_violations
  get_current_risk_level_iff s = ground (arith, level_of_violations s.limits)

  -- `GetRiskSummary` on a free lock returns, although it takes the read lock three times, and leaves
  -- the state alone. Its critical count is the number of limits over their critical threshold, its
  -- warning count that of the limits only over the other; the total is the sum and at most the number of
  -- limits; and the level is the one that `GetCurrentRiskLevel`
  -- reports.
  pub get_risk_summary_counts :
      (s : State F)
      → (r : Summary) × (get_risk_summary (record { mu = free; inner = s })
          ≡ done (r, record { mu = free; inner = s }))
        × (r.critical_violations ≡ length (keep over_critical s.limits))
        × (r.warning_violations ≡ length (keep over_warning s.limits))
        × (r.total_violations ≡ r.critical_violations + r.warning_violations)
        × (r.total_violations ≤ r.total_limits)
        × (r.total_limits ≡ length s.limits)
        × (r.risk_level ≡ expected_level s.limits)
  unfolding get_risk_summary get_current_risk_level check_violations
  get_risk_summary_counts s =
      let (c, w, n, le) = counts s.limits in
      let r : Summary = record {
        total_limits = length s.limits;
        total_violations = length (violations_of s.limits);
        critical_violations = (count_levels (violations_of s.limits)).0;
        warning_violations = (count_levels (violations_of s.limits)).1;
        risk_level = level_of (violations_of s.limits);
      } in
      (r, refl, c, w, rw (c, w) n, rw n le, refl, level_of_violations s.limits)
