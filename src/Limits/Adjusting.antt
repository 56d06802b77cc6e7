-- ===== src/Limits/Adjusting.antt =====
-- What the calls of trading/risk/realtime/risk_limit.go do to one limit, and `AutoAdjustThresholds`.
use expert_octo_enigma.Prelude.{
  String, ◌≡◌, refl, true, false, Option, none, some, [], ◌∷◌, arith, if◌then◌else◌, str_eq, eq_iff,
}
use expert_octo_enigma.Table.{
  Table, lookup, insert, delete, has, lookup-insert, has-insert, lookup-delete, has-lookup,
  lookup-has-not,
}
use expert_octo_enigma.Float.{Float}
use expert_octo_enigma.Lock.{done, free}
use expert_octo_enigma.Limits.{
  State, Limit, LimitConfig, not_found, already_exists, limit_of, add_limit, update_limit,
  remove_limit, update_current_value, change_limit, adjusted, adjust_all, auto_adjust_thresholds,
  get_limit, set_thresholds,
}

module _ {F : Type 0} ⦃f : Float F⦄ where
  adjust_option : F → Option (Limit F) → Option (Limit F)
  adjust_option factor none = none
  adjust_option factor (some l) = some (adjusted factor l)

  lookup-adjust :
      (c : F) (k : String) (t : Table (Limit F))
      → lookup k (adjust_all c t) ≡ adjust_option c (lookup k t)
  unfolding adjust_all lookup adjust_option
  lookup-adjust c k [] = refl
  lookup-adjust c k ((j, l) ∷ t) = ground (arith, lookup-adjust c k t)

  -- After a successful `AddLimit` and an `UpdateCurrentValue` to more than nine tenths of the limit's
  -- warning threshold, `AutoAdjustThresholds` raises both thresholds by the manager's factor: whatever
  -- the limit's own configuration says of adjusting, and by which factor.
  pub auto_adjust_raises :
      (config : LimitConfig F) (value : F) (s : State F)
      → s.enable_auto_adjust ≡ true
      → has config.name s.limits ≡ false
      → f.lt (f.mul config.warning_threshold (f.lit 9 1)) value ≡ true
      → (t u v : State F) × (add_limit config (record { mu = free; inner = s })
          ≡ done (none, record { mu = free; inner = t }))
        × (update_current_value config.name value (record { mu = free; inner = t })
            ≡ done (none, record { mu = free; inner = u }))
        × (auto_adjust_thresholds (record { mu = free; inner = u })
            ≡ done (tt, record { mu = free; inner = v }))
        × (get_limit config.name (record { mu = free; inner = v })
            ≡ done (
              some (record {
                name = config.name;
                type = config.type;
                warning_threshold =
                    f.mul config.warning_threshold (f.add (f.lit 1 0) s.adjust_factor);
                critical_threshold =
                    f.mul config.critical_threshold (f.add (f.lit 1 0) s.adjust_factor);
                current_value = value;
              }),
              record { mu = free; inner = v },
            ))
  unfolding add_limit limit_of update_current_value change_limit auto_adjust_thresholds get_limit
      adjusted adjust_option
  auto_adjust_raises config value s en h big =
      let l : Limit F = limit_of config in
      let t : State F = record s { limits = insert config.name l s.limits } in
      let m : Limit F = record l { current_value = value } in
      let u : State F = record t { limits = insert config.name m t.limits } in
      let v : State F = record u { limits = adjust_all s.adjust_factor u.limits } in
      (
        t,
        u,
        v,
        ground (arith, h),
        ground (
          arith,
          lookup-insert config.name config.name l s.limits,
          eq_iff config.name config.name,
        ),
        ground (arith, en),
        ground (
          arith,
          big,
          lookup-adjust s.adjust_factor config.name u.limits,
          lookup-insert config.name config.name m t.limits,
          eq_iff config.name config.name,
        ),
      )

  -- For a name in the table, `UpdateLimit`, `UpdateCurrentValue` and `RemoveLimit` succeed: the first sets
  -- the two thresholds and nothing else, the second the current value and nothing else, the third
  -- takes the limit away, and every other name keeps what it had.
  pub known_name :
      (name k : String) (w c x : F) (l : Limit F) (s : State F)
      → lookup name s.limits ≡ some l
      → (t u v : State F) × (update_limit name w c (record { mu = free; inner = s })
          ≡ done (none, record { mu = free; inner = t }))
        × (lookup k t.limits ≡ (
            if str_eq name k
            then some (record l { warning_threshold = w; critical_threshold = c })
            else lookup k s.limits))
        × (update_current_value name x (record { mu = free; inner = s })
            ≡ done (none, record { mu = free; inner = u }))
        × (lookup k u.limits
            ≡ (if str_eq name k then some (record l { current_value = x }) else lookup k s.limits))
        × (remove_limit name (record { mu = free; inner = s })
            ≡ done (none, record { mu = free; inner = v }))
        × (lookup k v.limits ≡ (if str_eq name k then none else lookup k s.limits))
  unfolding update_limit update_current_value remove_limit change_limit
  known_name name k w c x l s h = (
    record s { limits = insert name (set_thresholds w c l) s.limits },
    record s { limits = insert name (record l { current_value = x }) s.limits },
    record s { limits = delete name s.limits },
    ground (arith, h),
    lookup-insert name k (set_thresholds w c l) s.limits,
    ground (arith, h),
    lookup-insert name k (record l { current_value = x }) s.limits,
    ground (arith, has-lookup name s.limits l h),
    lookup-delete name k s.limits,
  )

  -- For a name that is not in the table, `UpdateLimit`, `UpdateCurrentValue` and `RemoveLimit` fail and
  -- change nothing, while `AddLimit` succeeds: the limit has the configured thresholds and the value 0,
  -- every other name keeps what it had, and a second `AddLimit` fails and changes nothing.
  pub unknown_name :
      (config again : LimitConfig F) (k : String) (w c x : F) (s : State F)
      → has config.name s.limits ≡ false
      → again.name ≡ config.name
      → (t : State F) × (update_limit config.name w c (record { mu = free; inner = s })
          ≡ done (some not_found, record { mu = free; inner = s }))
        × (update_current_value config.name x (record { mu = free; inner = s })
            ≡ done (some not_found, record { mu = free; inner = s }))
        × (remove_limit config.name (record { mu = free; inner = s })
            ≡ done (some not_found, record { mu = free; inner = s }))
        × (add_limit config (record { mu = free; inner = s })
            ≡ done (none, record { mu = free; inner = t }))
        × (lookup k t.limits
            ≡ (if str_eq config.name k then some (limit_of config) else lookup k s.limits))
        × (add_limit again (record { mu = free; inner = t })
            ≡ done (some already_exists, record { mu = free; inner = t }))
  unfolding add_limit update_limit update_current_value remove_limit change_limit
  unknown_name config again k w c x s h e =
      let l : Limit F = limit_of config in
      let none_there = lookup-has-not config.name s.limits h in
      (
        record s { limits = insert config.name l s.limits },
        ground (arith, none_there),
        ground (arith, none_there),
        ground (arith, h),
        ground (arith, h),
        lookup-insert config.name k l s.limits,
        ground
            (arith, e, has-insert config.name again.name l s.limits, eq_iff config.name again.name),
      )
