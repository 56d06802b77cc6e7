-- ===== src/AlertSystem/Data.antt =====
-- The types of monitoring/alert_manager.go.
use expert_octo_enigma.Prelude.{ℕ, String, Bool, Option, List}
use expert_octo_enigma.Prelude.Int.{ℤ}
use expert_octo_enigma.Table.{Table}

-- The metadata as `fmt.Sprintf("%v", …)` prints them.
pub record Alert (F : Type 0) : Type 0 where
  pub id : String
  pub level : String
  pub title : String
  pub message : String
  pub symbol : String
  pub value : F
  pub threshold : F
  pub source : String
  pub timestamp : ℕ
  pub resolved : Bool
  pub resolved_at : Option ℕ
  pub metadata : Table String

pub record AlertFilter : Type 0 where
  pub field : String
  pub operator : String
  pub value : String

pub record RateLimit : Type 0 where
  pub max_per_hour : ℤ
  pub max_per_day : ℤ
  pub cooldown : ℤ

-- Of the settings only the webhook is read: `none` unless it is a text.
pub record AlertChannel : Type 0 where
  pub type : String
  pub enabled : Bool
  pub webhook : Option String
  pub filters : List AlertFilter
  pub rate_limit : RateLimit

-- Times are nanoseconds since the zero time.
pub record RateTracker : Type 0 where
  pub hour_count : ℕ
  pub day_count : ℕ
  pub last_sent : ℕ
  pub hour_reset : ℕ
  pub day_reset : ℕ

pub record AlertStats : Type 0 where
  pub total_alerts : ℕ
  pub active_alerts : ℕ
  pub resolved_alerts : ℕ
  pub by_level : Table ℕ
  pub by_channel : Table ℕ
  pub last_alert : ℕ

pub record AlertSystem (F : Type 0) : Type 0 where
  pub alerts : Table (Alert F)
  pub channels : Table AlertChannel
  pub rate_limits : Table RateTracker
  pub stats : AlertStats

-- What the system asks of the world: the hour and the day of the local calendar, the substring test,
-- and whether a request to a webhook succeeds.
pub record World (F : Type 0) : Type 0 where
  pub hour : ℕ → ℕ
  pub day : ℕ → ℕ
  pub contains : String → String → Bool
  pub post : String → Alert F → Bool
