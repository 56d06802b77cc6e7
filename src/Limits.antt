-- ===== src/Limits.antt =====
-- trading/risk/realtime/risk_limit.go: the table of risk limits under one lock. An event's identifier,
-- message, metadata and time are left out but for the limit's name; the summary's time too.
pub mod Levels
pub mod Adjusting
pub mod Names
mod Tests
use Prim.Native.String.{◌++◌ as str_append}
use expert_octo_enigma.Prelude.{
  ℕ, suc, ◌+◌, String, Bool, true, false, not, ◌||◌, Option, none, some, List, [], ◌∷◌,
  if◌then◌else◌, length, any, ltb,
}
use expert_octo_enigma.Prelude.Int.{pos}
use expert_octo_enigma.Table.{Table, lookup, insert, delete, has}
use expert_octo_enigma.Float.{Float, nought}
use expert_octo_enigma.Lock.{
  Method, Outcome, done, blocked, crashed, ◌>>=◌, ◌>>◌, pure, gets, modify, locked, r_locked, free,
  Guarded,
}

-- `RiskLevel`, of which the values are in this order.
pub data RiskLevel : Type 0 where
  low medium high critical : RiskLevel

-- `RiskLimit`
pub record Limit (F : Type 0) : Type 0 where
  pub name : String
  pub type : String
  pub warning_threshold : F
  pub critical_threshold : F
  pub current_value : F

pub record LimitConfig (F : Type 0) : Type 0 where
  pub name : String
  pub type : String
  pub warning_threshold : F
  pub critical_threshold : F
  pub enable_auto_adjust : Bool
  pub adjust_factor : F

pub record State (F : Type 0) : Type 0 where
  pub limits : Table (Limit F)
  pub enable_auto_adjust : Bool
  pub adjust_factor : F

pub record RiskEvent (F : Type 0) : Type 0 where
  pub type : String
  pub level : RiskLevel
  pub value : F
  pub threshold : F
  pub limit_name : String

pub data Error : Type 0 where
  already_exists not_found : Error

pub record Summary : Type 0 where
  pub total_limits : ℕ
  pub total_violations : ℕ
  pub critical_violations : ℕ
  pub warning_violations : ℕ
  pub risk_level : RiskLevel

abbrev pub is_critical : RiskLevel → Bool
is_critical critical = true
is_critical _ = false

abbrev pub is_high : RiskLevel → Bool
is_high high = true
is_high _ = false

module _ {F : Type 0} ⦃f : Float F⦄ where
  unfoldable pub limit_of : LimitConfig F → Limit F
  limit_of config = record {
    name = config.name;
    type = config.type;
    warning_threshold = config.warning_threshold;
    critical_threshold = config.critical_threshold;
    current_value = nought;
  }

  unfoldable pub add_limit : LimitConfig F → Method (State F) (Option Error)
  unfolding limit_of
  add_limit config = locked do
    exists ← gets (λ s. has config.name s.limits)
    elim exists [
      | true ↦ pure (some already_exists)
      | false ↦ do
        modify (λ s. record s { limits = insert config.name (limit_of config) s.limits })
        pure none
    ]

  abbrev pub set_thresholds : F → F → Limit F → Limit F
  set_thresholds warning critical_value l = record l {
    warning_threshold = warning;
    critical_threshold = critical_value;
  }

  -- The update of the limit of that name through its pointer.
  unfoldable pub change_limit : String → (Limit F → Limit F) → Method (State F) (Option Error)
  change_limit name change = locked do
    found ← gets (λ s. lookup name s.limits)
    elim found [
      | none ↦ pure (some not_found)
      | some l ↦ do modify (λ s. record s { limits = insert name (change l) s.limits }); pure none
    ]

  unfoldable pub update_limit : String → F → F → Method (State F) (Option Error)
  unfolding change_limit
  update_limit name warning critical_value =
      change_limit name (set_thresholds warning critical_value)

  unfoldable pub remove_limit : String → Method (State F) (Option Error)
  remove_limit name = locked do
    exists ← gets (λ s. has name s.limits)
    elim exists [
      | false ↦ pure (some not_found)
      | true ↦ do modify (λ s. record s { limits = delete name s.limits }); pure none
    ]

  unfoldable pub get_limit : String → Method (State F) (Option (Limit F))
  get_limit name = r_locked (gets (λ s. lookup name s.limits))

  unfoldable pub get_all_limits : Method (State F) (Table (Limit F))
  get_all_limits = r_locked (gets (λ s. s.limits))

  unfoldable pub update_current_value : String → F → Method (State F) (Option Error)
  unfolding change_limit
  update_current_value name value = change_limit name (λ l. record l { current_value = value })

  -- The event of one limit, if it is violated. `x >= y` is `y <= x`.
  unfoldable pub violation : String → Limit F → Option (RiskEvent F)
  violation name l =
      if f.le l.critical_threshold l.current_value
      then some (record {
        type = str_append l.type "_violation";
        level = critical;
        value = l.current_value;
        threshold = l.critical_threshold;
        limit_name = name;
      })
      else if f.le l.warning_threshold l.current_value
      then some (record {
        type = str_append l.type "_warning";
        level = high;
        value = l.current_value;
        threshold = l.warning_threshold;
        limit_name = name;
      })
      else none

  abbrev cons_some : Option (RiskEvent F) → List (RiskEvent F) → List (RiskEvent F)
  cons_some none rest = rest
  cons_some (some e) rest = e ∷ rest

  unfoldable pub violations_of : Table (Limit F) → List (RiskEvent F)
  violations_of [] = []
  violations_of ((name, l) ∷ rest) = cons_some (violation name l) (violations_of rest)

  unfoldable pub check_violations : Method (State F) (List (RiskEvent F))
  check_violations = r_locked (gets (λ s. violations_of s.limits))

  unfoldable pub adjusted : F → Limit F → Limit F
  adjusted factor l =
      if f.lt (f.mul l.warning_threshold (f.lit 9 1)) l.current_value
      then set_thresholds (f.mul l.warning_threshold (f.add (f.lit 1 0) factor))
          (f.mul l.critical_threshold (f.add (f.lit 1 0) factor)) l
      else l

  unfoldable pub adjust_all : F → Table (Limit F) → Table (Limit F)
  unfolding adjusted
  adjust_all factor [] = []
  adjust_all factor ((name, l) ∷ rest) = (name, adjusted factor l) ∷ adjust_all factor rest

  unfoldable pub auto_adjust_thresholds : Method (State F) (Unit {0})
  auto_adjust_thresholds = do
    enabled ← gets (λ s. s.enable_auto_adjust)
    elim enabled [
      | false ↦ pure tt
      | true ↦ locked (modify (λ s. record s { limits = adjust_all s.adjust_factor s.limits }))
    ]

  unfoldable pub level_of : List (RiskEvent F) → RiskLevel
  level_of events =
      if any (λ e. is_critical e.level) events
      then critical
      else if any (λ e. is_high e.level) events
      then high
      else if ltb 0 (length events)
      then medium
      else low

  unfoldable pub get_current_risk_level : Method (State F) RiskLevel
  unfolding check_violations
  get_current_risk_level = do events ← check_violations; pure (level_of events)

  -- The counts of the events that are critical, and of those that are high.
  unfoldable pub count_levels : List (RiskEvent F) → ℕ × ℕ
  count_levels [] = (0, 0)
  count_levels (e ∷ rest) =
      let (c, w) = count_levels rest in
      if is_critical e.level then (c + 1, w) else if is_high e.level then (c, w + 1) else (c, w)

  -- The read lock is taken again inside the read lock, twice.
  unfoldable pub get_risk_summary : Method (State F) Summary
  unfolding check_violations get_current_risk_level
  get_risk_summary = r_locked do
    events ← check_violations
    level ← get_current_risk_level
    total ← gets (λ s. length s.limits)
    pure (record {
      total_limits = total;
      total_violations = length events;
      critical_violations = (count_levels events).0;
      warning_violations = (count_levels events).1;
      risk_level = level;
    })

  abbrev default : String → String → F → F → Bool → F → LimitConfig F
  default name type warning critical_value enable factor = record {
    name = name;
    type = type;
    warning_threshold = warning;
    critical_threshold = critical_value;
    enable_auto_adjust = enable;
    adjust_factor = factor;
  }

  unfoldable pub default_limits : List (LimitConfig F)
  default_limits =
      default "max_single_position" "position" (f.lit 25 2) (f.lit 30 2) true (f.lit 5 2)
      ∷ default "max_total_positions" "position" (f.lit 8 0) (f.lit 10 0) false nought
      ∷ default "max_drawdown" "portfolio" (f.lit 15 2) (f.lit 20 2) true (f.lit 2 2)
      ∷ default "daily_loss_limit" "portfolio" (f.lit 8 2) (f.lit 10 2) false nought
      ∷ default "volatility_limit" "volatility" (f.lit 25 2) (f.lit 30 2) true (f.lit 5 2)
      ∷ default "concentration_limit" "position" (f.lit 35 2) (f.lit 40 2) true (f.lit 5 2)
      ∷ []

  -- `initDefaultLimits`, which drops the errors.
  unfoldable pub add_limits : List (LimitConfig F) → Method (State F) (Unit {0})
  unfolding add_limit
  add_limits [] = pure tt
  add_limits (c ∷ rest) = add_limit c >>= λ _. add_limits rest

  -- `NewRiskLimitManager`
  unfoldable pub new_risk_limit_manager : Outcome (Unit {0} × Guarded (State F))
  unfolding add_limits default_limits
  new_risk_limit_manager = add_limits default_limits (record {
    mu = free;
    inner = record { limits = []; enable_auto_adjust = true; adjust_factor = f.lit 1 1 };
  })
