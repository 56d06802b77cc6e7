-- ===== src/Cooldown.antt =====
-- trading/risk/cooldown_risk.go: the pause between trades of a stock, its daily and weekly counts and
-- its blacklist. Every reading of the clock is an argument, in the order of the code; a time is the
-- number of nanoseconds since the zero time, and the counters do not reach 2^63.
pub mod Expiry
pub mod Verdict
pub mod Locks
pub mod Tracking
pub mod Blacklist
mod Tests
use expert_octo_enigma.Prelude.{
  ℕ, ◌+◌, ◌/◌, String, Bool, true, false, Option, none, some, List, [], ◌∷◌, ◌++◌, ltb, leb, ◌==◌,
  if◌then◌else◌, length,
}
use expert_octo_enigma.Prelude.Int.{ℤ, pos, sub_ℕ, ltb_ℤ, ◌-ℤ◌}
use expert_octo_enigma.Table.{Table, lookup, insert, delete, values}
use expert_octo_enigma.Lock.{Method, ◌>>=◌, ◌>>◌, pure, gets, modify, locked, r_locked}

pub record Config : Type 0 where
  pub min_trade_interval : ℕ
  pub max_daily_trades : ℕ
  pub min_order_interval : ℕ
  pub max_weekly_trades : ℕ
  pub blacklist_duration : ℕ
  pub enable_cooldown : Bool

pub record State : Type 0 where
  pub config : Config
  pub last_trades : Table ℕ
  pub trade_counts : Table ℕ
  pub blacklist : Table ℕ

-- The texts of `Reasons`, with the values that they print.
pub data Reason : Type 0 where
  in_blacklist : String → Reason
  too_soon : ℤ → ℕ → Reason
  daily_limit weekly_limit : ℕ → ℕ → Reason
  cooling : ℤ → Reason

pub record Check : Type 0 where
  pub symbol : String
  pub timestamp : ℕ
  pub allowed : Bool
  pub reasons : List Reason

pub record Status : Type 0 where
  pub symbol : String
  pub timestamp : ℕ
  pub last_trade_time : ℕ
  pub trade_count : ℕ
  pub daily_trades : ℕ
  pub weekly_trades : ℕ
  pub blacklisted : Bool
  pub cooldown_remaining : ℤ

pub record Stats : Type 0 where
  pub total_tracked_symbols : ℕ
  pub blacklisted_symbols : ℕ
  pub total_trades : ℕ
  pub last_trade_time : ℕ
  pub enabled : Bool

abbrev pub new : Config → State
new c = record { config = c; last_trades = []; trade_counts = []; blacklist = [] }

-- A missing key reads as the zero value.
abbrev pub or_zero : Option ℕ → ℕ
or_zero none = 0
or_zero (some n) = n

pub daily_trade_count : String → State → ℕ
daily_trade_count symbol s = or_zero (lookup symbol s.trade_counts)

pub weekly_trade_count : String → State → ℕ
weekly_trade_count symbol s = or_zero (lookup symbol s.trade_counts) / 7

-- The loop over `lastTrades`, from the latest time so far.
unfoldable pub latest_from : ℕ → List ℕ → ℕ
latest_from latest [] = latest
latest_from latest (t ∷ ts) = latest_from (if ltb latest t then t else latest) ts

-- `getGlobalCooldownTime`
pub global_cooldown_time : ℕ → State → ℤ
global_cooldown_time now s =
    let latest = latest_from 0 (values s.last_trades) in
    let elapsed = sub_ℕ now latest in
    if latest == 0
    then pos 0
    else if ltb_ℤ elapsed (pos s.config.min_order_interval)
    then pos s.config.min_order_interval -ℤ elapsed
    else pos 0

pub is_blacklisted : String → ℕ → Method State Bool
is_blacklisted symbol now = do
  found ← gets (λ s. lookup symbol s.blacklist)
  elim found [
    | none ↦ pure false
    | some until ↦
        if ltb until now
        then (do modify (λ s. record s { blacklist = delete symbol s.blacklist }); pure false)
        else pure true
  ]

-- `result.Allowed = false` with one more reason, if the test holds.
abbrev refuse_if : Bool → Reason → Check → Check
refuse_if test r c = if test then record c { allowed = false; reasons = c.reasons ++ r ∷ [] } else c

too_soon_check : Option ℕ → ℕ → ℕ → Check → Check
too_soon_check none now least c = c
too_soon_check (some last) now least c =
    refuse_if (ltb_ℤ (sub_ℕ now last) (pos least)) (too_soon (sub_ℕ now last) least) c

-- The four checks of a stock that is not blacklisted.
limit_checks : String → ℕ → ℕ → State → Check → Check
unfolding too_soon_check
limit_checks symbol now now_global s c =
    let daily = daily_trade_count symbol s in
    let weekly = weekly_trade_count symbol s in
    let cool = global_cooldown_time now_global s in
    refuse_if (ltb_ℤ (pos 0) cool) (cooling cool) (
      refuse_if (leb s.config.max_weekly_trades weekly)
        (weekly_limit weekly s.config.max_weekly_trades)
        (refuse_if (leb s.config.max_daily_trades daily)
          (daily_limit daily s.config.max_daily_trades)
          (too_soon_check (lookup symbol s.last_trades) now s.config.min_trade_interval c)))

pub check_trade_cooldown : String → ℕ → ℕ → ℕ → ℕ → Method State Check
unfolding is_blacklisted limit_checks
check_trade_cooldown symbol stamp now_list now now_global = locked do
  enabled ← gets (λ s. s.config.enable_cooldown)
  if enabled
      then (do
        listed ← is_blacklisted symbol now_list
        if listed
            then pure (refuse_if true (in_blacklist symbol) start)
            else gets (λ s. limit_checks symbol now now_global s start))
      else pure start
  where
    start : Check
    start = record { symbol = symbol; timestamp = stamp; allowed = true; reasons = [] }

pub should_add_to_blacklist : String → State → Bool
should_add_to_blacklist symbol s = ltb 10 (or_zero (lookup symbol s.trade_counts))

pub count_trade : String → ℕ → State → State
count_trade symbol now s = record s {
  last_trades = insert symbol now s.last_trades;
  trade_counts = insert symbol (or_zero (lookup symbol s.trade_counts) + 1) s.trade_counts;
}

pub blacklist_if_busy : String → ℕ → State → State
unfolding should_add_to_blacklist
blacklist_if_busy symbol now s =
    if should_add_to_blacklist symbol s
    then record s { blacklist = insert symbol (now + s.config.blacklist_duration) s.blacklist }
    else s

pub record_trade : String → ℕ → Method State (Unit {0})
unfolding count_trade blacklist_if_busy
record_trade symbol now =
    locked (modify (λ s. blacklist_if_busy symbol now (count_trade symbol now s)))

remaining : Option ℕ → ℕ → ℕ → ℤ
remaining none now least = pos 0
remaining (some last) now least =
    let elapsed = sub_ℕ now last in
    if ltb_ℤ elapsed (pos least) then pos least -ℤ elapsed else pos 0

status_at : String → ℕ → Bool → State → Status
unfolding remaining
status_at symbol now listed s = record {
  symbol = symbol;
  timestamp = now;
  last_trade_time = or_zero (lookup symbol s.last_trades);
  trade_count = or_zero (lookup symbol s.trade_counts);
  daily_trades = daily_trade_count symbol s;
  weekly_trades = weekly_trade_count symbol s;
  blacklisted = listed;
  cooldown_remaining = remaining (lookup symbol s.last_trades) now s.config.min_trade_interval;
}

-- `isBlacklisted` may delete an entry, though only a read lock is held.
pub cooldown_status : String → ℕ → ℕ → Method State Status
unfolding is_blacklisted status_at
cooldown_status symbol now now_list =
    r_locked do listed ← is_blacklisted symbol now_list; gets (status_at symbol now listed)

-- The loop of `GetAllCooldownStatus`; the readings of the clock are given for each stock.
status_loop : (String → ℕ × ℕ) → Table ℕ → Method State (Table Status)
status_loop times [] = pure []
status_loop times ((symbol, t) ∷ rest) = do
  status ← cooldown_status symbol (times symbol).0 (times symbol).1
  others ← status_loop times rest
  pure (insert symbol status others)

pub all_cooldown_status : (String → ℕ × ℕ) → Method State (Table Status)
all_cooldown_status times =
    r_locked do tracked ← gets (λ s. s.last_trades); status_loop times tracked

pub remove_from_blacklist : String → Method State (Unit {0})
remove_from_blacklist symbol =
    locked (modify (λ s. record s { blacklist = delete symbol s.blacklist }))

pub add_to_blacklist : String → ℕ → ℕ → Method State (Unit {0})
add_to_blacklist symbol duration now =
    locked (modify (λ s. record s { blacklist = insert symbol (now + duration) s.blacklist }))

-- The last call waits for the lock that the method holds.
pub reset_cooldown : String → Method State (Unit {0})
unfolding remove_from_blacklist
reset_cooldown symbol = locked do
  modify (λ s. record s { last_trades = delete symbol s.last_trades })
  modify (λ s. record s { trade_counts = delete symbol s.trade_counts })
  remove_from_blacklist symbol

pub clear_all_cooldowns : Method State (Unit {0})
clear_all_cooldowns =
    locked (modify (λ s. record s { last_trades = []; trade_counts = []; blacklist = [] }))

pub set_config : Config → Method State (Unit {0})
set_config c = locked (modify (λ s. record s { config = c }))

pub get_config : Method State Config
get_config = r_locked (gets (λ s. s.config))

-- `totalTrades += count`
unfoldable pub sum_from : ℕ → List ℕ → ℕ
sum_from total [] = total
sum_from total (n ∷ ns) = sum_from (total + n) ns

pub stats_of : State → Stats
unfolding latest_from sum_from
stats_of s = record {
  total_tracked_symbols = length s.last_trades;
  blacklisted_symbols = length s.blacklist;
  total_trades = sum_from 0 (values s.trade_counts);
  last_trade_time = latest_from 0 (values s.last_trades);
  enabled = s.config.enable_cooldown;
}

pub get_stats : Method State Stats
unfolding stats_of
get_stats = r_locked (gets stats_of)
