-- ===== src/Alerts/Limiter.antt =====
-- The rate limiter of trading/risk/realtime/alert_trigger.go over the checks of one configuration.
use expert_octo_enigma.Prelude.{
  ℕ, ◌+◌, ◌-◌, ◌≤◌, ◌<◌, ◌≡◌, refl, Bool, true, false, ◌&&◌, List, [], ◌∷◌, arith, if◌then◌else◌,
  ltb, leb, All,
}
use expert_octo_enigma.Alerts.{
  RateLimitConfig, RateLimiter, admit, elapsed, hour, day, reset_hour, reset_day,
}

-- What a window's count is at a time.
abbrev hourly_at : ℕ → RateLimiter → ℕ
hourly_at now r = if leb hour (elapsed now r.hour_start) then 0 else r.hourly_count

abbrev daily_at : ℕ → RateLimiter → ℕ
daily_at now r = if leb day (elapsed now r.day_start) then 0 else r.daily_count

reset_fields :
    (now : ℕ) (r : RateLimiter)
    → ((reset_day now (reset_hour now r)).hourly_count ≡ hourly_at now r)
      × ((reset_day now (reset_hour now r)).daily_count ≡ daily_at now r)
      × ((reset_day now (reset_hour now r)).last_alert ≡ r.last_alert)
      × ((reset_day now (reset_hour now r)).hour_start
          ≡ (if leb hour (elapsed now r.hour_start) then now else r.hour_start))
      × ((reset_day now (reset_hour now r)).day_start
          ≡ (if leb day (elapsed now r.day_start) then now else r.day_start))
unfolding reset_hour reset_day
reset_fields now r = ground arith

-- A check admits an alert exactly if the cooldown since the last admitted one is over and both counts
-- are below their limits, where a window that is over counts 0. It then counts the alert in both windows
-- and remembers its time; otherwise the counts and the time stay, but for windows that are over. A
-- window that is over starts again at the time of the check in both cases.
pub admit_iff :
    (now : ℕ) (limit : RateLimitConfig) (r : RateLimiter)
    → let (answer, after) = admit now limit r in
      (answer ≡ (
        leb limit.cooldown (elapsed now r.last_alert)
        && (ltb (hourly_at now r) limit.max_per_hour && ltb (daily_at now r) limit.max_per_day)))
      × (after.hourly_count ≡ hourly_at now r + (if answer then 1 else 0))
      × (after.daily_count ≡ daily_at now r + (if answer then 1 else 0))
      × (after.last_alert ≡ (if answer then now else r.last_alert))
      × (after.hour_start ≡ (if leb hour (elapsed now r.hour_start) then now else r.hour_start))
      × (after.day_start ≡ (if leb day (elapsed now r.day_start) then now else r.day_start))
unfolding admit
admit_iff now limit r = let (a, b, c, d, e) = reset_fields now r in ground (arith, a, b, c, d, e)

-- The answers of checks at these times, one after another, and the limiter after them.
pub checks : List ℕ → RateLimitConfig → RateLimiter → List Bool × RateLimiter
checks [] limit r = ([], r)
checks (now ∷ nows) limit r =
    let (answer, r') = admit now limit r in
    let (answers, r'') = checks nows limit r' in (answer ∷ answers, r'')

abbrev pub admitted : List Bool → ℕ
admitted [] = 0
admitted (b ∷ bs) = (if b then 1 else 0) + admitted bs

-- However many checks fall within an hour of the start of the hourly window, at most so many are admitted
-- as the hourly limit leaves.
pub hour_bound :
    (nows : List ℕ) (limit : RateLimitConfig) (r : RateLimiter)
    → All (λ now. elapsed now r.hour_start < hour) nows
    → admitted (checks nows limit r).0 ≤ limit.max_per_hour - r.hourly_count
unfolding checks
hour_bound [] limit r a = omega arith
hour_bound (now ∷ nows) limit r a =
    let r' = (admit now limit r).1 in
    let (answer, hc, dc, la, hs, ds) = admit_iff now limit r in
    let same : r'.hour_start ≡ r.hour_start = ground (arith, hs, a.0) in
    let ih = hour_bound nows limit r' (rw same a.1) in ground (arith, a.0, answer, hc, ih)

-- However many checks fall within a day of the start of the daily window, at most so many are admitted as
-- the daily limit leaves.
pub day_bound :
    (nows : List ℕ) (limit : RateLimitConfig) (r : RateLimiter)
    → All (λ now. elapsed now r.day_start < day) nows
    → admitted (checks nows limit r).0 ≤ limit.max_per_day - r.daily_count
unfolding checks
day_bound [] limit r a = omega arith
day_bound (now ∷ nows) limit r a =
    let r' = (admit now limit r).1 in
    let (answer, hc, dc, la, hs, ds) = admit_iff now limit r in
    let same : r'.day_start ≡ r.day_start = ground (arith, ds, a.0) in
    let ih = day_bound nows limit r' (rw same a.1) in ground (arith, a.0, answer, dc, ih)

refused :
    (t : ℕ) (nows : List ℕ) (limit : RateLimitConfig) (r : RateLimiter)
    → r.last_alert ≡ t
    → All (λ later. elapsed later t < limit.cooldown) nows
    → admitted (checks nows limit r).0 ≡ 0
unfolding checks
refused t [] limit r e a = refl
refused t (now ∷ nows) limit r e a =
    let (answer, hc, dc, la, hs, ds) = admit_iff now limit r in
    let no : (admit now limit r).0 ≡ false = ground (arith, e, answer, a.0) in
    let ih = refused t nows limit (admit now limit r).1 (ground (arith, la, no, e)) a.1 in
    ground (arith, no, ih)

-- After an admitted check, every check whose distance in time is below the cooldown is refused, whatever
-- was checked in between; none of these counts an alert.
pub cooldown_refuses :
    (now : ℕ) (nows : List ℕ) (limit : RateLimitConfig) (r : RateLimiter)
    → (admit now limit r).0 ≡ true
    → All (λ later. elapsed later now < limit.cooldown) nows
    → admitted (checks nows limit (admit now limit r).1).0 ≡ 0
cooldown_refuses now nows limit r e a =
    let (answer, hc, dc, la, hs, ds) = admit_iff now limit r in
    refused now nows limit (admit now limit r).1 (ground (arith, la, e)) a

-- With positive limits, a check a day after the starts of both windows and a cooldown after the last
-- alert is admitted: the limiter does not stay shut.
pub reopens :
    (now : ℕ) (limit : RateLimitConfig) (r : RateLimiter)
    → 0 < limit.max_per_hour
    → 0 < limit.max_per_day
    → hour ≤ elapsed now r.hour_start
    → day ≤ elapsed now r.day_start
    → limit.cooldown ≤ elapsed now r.last_alert
    → ((admit now limit r).0 ≡ true)
      × ((admit now limit r).1.hourly_count ≡ 1)
      × ((admit now limit r).1.daily_count ≡ 1)
reopens now limit r h d eh ed ec =
    let (answer, hc, dc, la, hs, ds) = admit_iff now limit r in
    ground (arith, h, d, eh, ed, ec, answer, hc, dc)
