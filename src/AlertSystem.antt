-- ===== src/AlertSystem.antt =====
-- monitoring/alert_manager.go: the alert system, its channels with their filters and rate limits, and
-- its statistics. The calls are sequential; nobody writes to an alert after it is sent. `crashed` is
-- a panic. Templates only reach the log, and are left out.
mod Data
pub mod Registry
pub mod Sending
pub mod Resolving
pub mod Reaching
mod Tests
pub use Data.*
use Prim.Native.String.{◌++◌ as str_append}
use expert_octo_enigma.Prelude.{
  ℕ, suc, ◌+◌, ◌-◌, ◌*◌, ◌%◌, String, Bool, true, false, not, ◌&&◌, ◌||◌, Option, none, some, List,
  [], ◌∷◌, leb, ltb, ◌==◌, str_eq, if◌then◌else◌, length, keep, any,
}
use mathlib.Core.Option
use expert_octo_enigma.Prelude.Int.{ℤ, pos, ltb_ℤ, ◌+ℤ◌}
use expert_octo_enigma.Table.{Table, lookup, insert, delete, has, values}
use expert_octo_enigma.Float.{Float}
use expert_octo_enigma.Lock.{Outcome, done, crashed, and_then}

abbrev or_zero : Option ℕ → ℕ
or_zero none = 0
or_zero (some n) = n

-- `m[key]++`
abbrev pub bump : String → Table ℕ → Table ℕ
bump key m = insert key (suc (or_zero (lookup key m))) m

abbrev pub count_of : String → Table ℕ → ℕ
count_of key m = or_zero (lookup key m)

-- `now.Truncate(d)`
abbrev truncate : ℕ → ℕ → ℕ
truncate now d = now - now % d

abbrev hour_length : ℕ
hour_length = 3_600_000_000_000

abbrev day_length : ℕ
day_length = 86_400_000_000_000

module _ {F : Type 0} (world : World F) where
  abbrev fresh_tracker : ℕ → RateTracker
  fresh_tracker now = record {
    hour_count = 0;
    day_count = 0;
    last_sent = 0;
    hour_reset = truncate now hour_length;
    day_reset = truncate now day_length;
  }

  -- A tracker whose hour or day is another one starts again.
  pub reset_counts : ℕ → RateTracker → RateTracker
  reset_counts now t =
      let h = world.hour now == world.hour t.hour_reset in
      let d = world.day now == world.day t.day_reset in
      record t {
        hour_count = if h then t.hour_count else 0;
        hour_reset = if h then t.hour_reset else truncate now hour_length;
        day_count = if d then t.day_count else 0;
        day_reset = if d then t.day_reset else truncate now day_length;
      }

  -- `limit > 0 && count >= limit`
  pub reached : ℤ → ℕ → Bool
  reached limit count = ltb_ℤ (pos 0) limit && not (ltb_ℤ (pos count) limit)

  pub cooling : ℤ → ℕ → ℕ → Bool
  cooling cooldown now last = ltb_ℤ (pos 0) cooldown && ltb_ℤ (pos now) (pos last +ℤ cooldown)

  -- Whether the limits let an alert through, with the tracker afterwards.
  pub admit : RateLimit → ℕ → RateTracker → Bool × RateTracker
  unfolding reset_counts reached cooling
  admit limit now tracker =
      let t = reset_counts now tracker in
      if reached limit.max_per_hour t.hour_count
        || reached limit.max_per_day t.day_count
        || cooling limit.cooldown now t.last_sent
      then (false, tracker)
      else (
        true,
        record t { hour_count = t.hour_count + 1; day_count = t.day_count + 1; last_sent = now },
      )

  abbrev tracker_of : String → ℕ → AlertSystem F → RateTracker
  tracker_of type now a = elim (lookup type a.rate_limits) [ none ↦ fresh_tracker now | some t ↦ t ]

  -- The limits are those of the channel whose name is the type; a nil channel panics.
  pub check_rate_limit : String → ℕ → AlertSystem F → Outcome (Bool × AlertSystem F)
  unfolding admit
  check_rate_limit type now a = elim (lookup type a.channels) [
    | none ↦ crashed
    | some c ↦
        let (ok, t) = admit c.rate_limit now (tracker_of type now a) in
        done (ok, record a { rate_limits = insert type t a.rate_limits })
  ]

  pub update_stats : Alert F → AlertSystem F → AlertSystem F
  update_stats x a = record a {
    stats = record (a.stats) {
      total_alerts = a.stats.total_alerts + 1;
      resolved_alerts = if x.resolved then a.stats.resolved_alerts + 1 else a.stats.resolved_alerts;
      by_level = bump x.level a.stats.by_level;
      last_alert = x.timestamp;
    };
  }

  -- A message to a webhook, which must be there.
  post_to : AlertChannel → Alert F → Bool
  post_to c x = elim c.webhook [
    | none ↦ false
    | some url ↦ if str_eq url "" then false else world.post url x
  ]

  -- Whether a channel takes an alert: an email always, and nothing of another type.
  pub takes : AlertChannel → Alert F → Bool
  unfolding post_to
  takes c x =
      c.enabled
      && (str_eq c.type "email"
          || ((str_eq c.type "feishu" || str_eq c.type "dingding") && post_to c x))

  -- A failure: an enabled channel with a webhook that did not take the alert.
  fails : AlertChannel → Alert F → Bool
  unfolding post_to
  fails c x = c.enabled && (str_eq c.type "feishu" || str_eq c.type "dingding") && not (post_to c x)

  pub count_taken : Alert F → Table AlertChannel → Table ℕ → Table ℕ
  unfolding takes
  count_taken x [] counts = counts
  count_taken x ((name, c) ∷ rest) counts =
      let more = count_taken x rest in if takes c x then more (bump name counts) else more counts

  -- Every enabled channel gets the alert; the result tells whether one of them failed.
  pub broadcast_alert : Alert F → AlertSystem F → Bool × AlertSystem F
  unfolding count_taken fails
  broadcast_alert x a = (
    any (λ c. fails c x) (values a.channels),
    record a {
      stats = record (a.stats) { by_channel = count_taken x a.channels a.stats.by_channel };
    },
  )

  -- Names and times that are missing are filled in.
  abbrev completed : (ℕ → String) → ℕ → Alert F → Alert F
  completed decimal now x = record x {
    id = if str_eq x.id "" then str_append "alert_" (decimal now) else x.id;
    timestamp = if x.timestamp == 0 then now else x.timestamp;
  }

module _ {F : Type 0} ⦃f : Float F⦄ (world : World F) where
  field_value : Alert F → String → String
  field_value x field =
      if str_eq field "level"
      then x.level
      else if str_eq field "symbol"
      then x.symbol
      else if str_eq field "source"
      then x.source
      else if str_eq field "message"
      then x.message
      else elim (lookup field x.metadata) [ none ↦ "" | some v ↦ v ]

  pub matches_filter : Alert F → AlertFilter → Bool
  unfolding field_value
  matches_filter x g =
      if str_eq g.operator "equals"
      then str_eq (field_value x g.field) g.value
      else if str_eq g.operator "contains"
      then world.contains (field_value x g.field) g.value
      else if str_eq g.operator "gt"
      then f.lt x.threshold x.value
      else if str_eq g.operator "lt"
      then f.lt x.value x.threshold
      else false

  -- The first enabled channel with a filter that matches.
  pub first_match : Alert F → Table AlertChannel → Option AlertChannel
  unfolding matches_filter
  first_match x [] = none
  first_match x ((name, c) ∷ rest) =
      let later = first_match x rest in
      if c.enabled && any (λ g. matches_filter x g) c.filters then some c else later

  -- That channel alone decides.
  pub should_send_alert : Alert F → ℕ → AlertSystem F → Outcome (Bool × AlertSystem F)
  unfolding first_match check_rate_limit
  should_send_alert x now a = elim (first_match x a.channels) [
    | none ↦ done (false, a)
    | some c ↦ check_rate_limit world c.type now a
  ]

  -- The result tells whether a channel failed; an alert that is held back is no failure.
  send_stored : Alert F → ℕ → AlertSystem F → Outcome (Bool × AlertSystem F)
  unfolding should_send_alert broadcast_alert
  send_stored x now a =
      and_then (should_send_alert x now a)
        (λ r. if r.0 then done (broadcast_alert world x r.1) else done (false, r.1))

  pub send_alert : (ℕ → String) → Alert F → ℕ → AlertSystem F → Outcome (Bool × AlertSystem F)
  unfolding send_stored update_stats
  send_alert decimal alert now a =
      let x = completed world decimal now alert in
      send_stored x now (update_stats world x (record a { alerts = insert x.id x a.alerts }))
