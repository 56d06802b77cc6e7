-- ===== src/Cooldown/Verdict.antt =====
-- `CheckTradeCooldown` of trading/risk/cooldown_risk.go against a direct description of when a stock
-- may be traded.
use expert_octo_enigma.Prelude.{
  ℕ, ◌+◌, ◌/◌, ◌≤◌, ◌<◌, String, ◌≡◌, refl, ◌↔◌, ◌⊎◌, inl, true, false, Option, none, some, List,
  [], ◌∷◌, arith, ltb, if◌then◌else◌, All,
}
use expert_octo_enigma.Prelude.Int.{pos, ltb_ℤ, ◌-ℤ◌}
use expert_octo_enigma.Table.{lookup, values}
use expert_octo_enigma.Lock.{free, writing, done}
use expert_octo_enigma.Cooldown.{
  State, Check, in_blacklist, or_zero, latest_from, global_cooldown_time, daily_trade_count,
  weekly_trade_count, limit_checks, check_trade_cooldown,
}
use expert_octo_enigma.Cooldown.Expiry.{listed, expire, is_blacklisted_lem, expire-keeps}

-- A time that is set lies at least `least` before `now`.
abbrev pub Rested : ℕ → ℕ → ℕ → Type 0
Rested now least t = (t ≡ 0) ⊎ (t + least ≤ now)

-- The entry, if there is one, satisfies P.
abbrev pub Entry : (ℕ → Type 0) → Option ℕ → Type 0
Entry P none = Unit
Entry P (some x) = P x

-- When a stock may be traded, under an enabled cooldown.
pub record MayTrade (symbol : String) (now_list now now_global : ℕ) (s : State) : Type 0 where
  pub unlisted : Entry (λ until. until < now_list) (lookup symbol s.blacklist)
  pub rested :
      Entry (λ last. last + s.config.min_trade_interval ≤ now) (lookup symbol s.last_trades)
  pub daily : or_zero (lookup symbol s.trade_counts) < s.config.max_daily_trades
  pub weekly : or_zero (lookup symbol s.trade_counts) / 7 < s.config.max_weekly_trades
  pub all_rested : All (Rested now_global s.config.min_order_interval) (values s.last_trades)

latest_from_keeps :
    (now least a : ℕ) (ts : List ℕ)
    → Rested now least a
    → All (Rested now least) ts
    → Rested now least (latest_from a ts)
unfolding latest_from
latest_from_keeps now least a [] h k = h
latest_from_keeps now least a (t ∷ ts) h (k, ks) =
    latest_from_keeps now least (if ltb a t then t else a) ts (ground arith) ks

latest_from-le : (a : ℕ) (ts : List ℕ) → a ≤ latest_from a ts
unfolding latest_from
latest_from-le a [] = omega arith
latest_from-le a (t ∷ ts) = ground (arith, latest_from-le (if ltb a t then t else a) ts)

latest_from_bounds : (a : ℕ) (ts : List ℕ) → All (λ t. t ≤ latest_from a ts) ts
unfolding latest_from
latest_from_bounds a [] = tt
latest_from_bounds a (t ∷ ts) =
    let b = if ltb a t then t else a in
    let up = latest_from-le b ts in (ground arith, latest_from_bounds b ts)

Rested-below :
    (now least m : ℕ) (ts : List ℕ)
    → Rested now least m
    → All (λ t. t ≤ m) ts
    → All (Rested now least) ts
Rested-below now least m [] h k = tt
Rested-below now least m (t ∷ ts) h (k, ks) = (grind arith, Rested-below now least m ts h ks)

global_cooldown_off :
    (now : ℕ) (s : State)
    → (ltb_ℤ (pos 0) (global_cooldown_time now s) ≡ false)
      ↔ Rested now s.config.min_order_interval (latest_from 0 (values s.last_trades))
unfolding global_cooldown_time ◌-ℤ◌
global_cooldown_off now s = ground arith

-- No global cooldown remains exactly when every tracked stock has rested.
global_cooldown_iff :
    (now : ℕ) (s : State)
    → (ltb_ℤ (pos 0) (global_cooldown_time now s) ≡ false)
      ↔ All (Rested now s.config.min_order_interval) (values s.last_trades)
global_cooldown_iff now s = (
  λ h.
      Rested-below now s.config.min_order_interval _ (values s.last_trades)
        ((global_cooldown_off now s).0 h) (latest_from_bounds 0 (values s.last_trades)),
  λ k.
      (global_cooldown_off now s).1
        (latest_from_keeps now s.config.min_order_interval 0 (values s.last_trades) (inl refl) k),
)

abbrev Sound : Check → Type 0
Sound c = (c.allowed ≡ true) ↔ (c.reasons ≡ [])

limit_checks_allowed :
    (symbol : String) (now now_global : ℕ) (s : State) (c : Check)
    → c.allowed ≡ true
    → ((limit_checks symbol now now_global s c).allowed ≡ true) ↔ (
        Entry (λ last. last + s.config.min_trade_interval ≤ now) (lookup symbol s.last_trades)
        × (or_zero (lookup symbol s.trade_counts) < s.config.max_daily_trades)
        × (or_zero (lookup symbol s.trade_counts) / 7 < s.config.max_weekly_trades)
        × (ltb_ℤ (pos 0) (global_cooldown_time now_global s) ≡ false))
unfolding limit_checks daily_trade_count weekly_trade_count
limit_checks_allowed symbol now now_global s c h = ground arith

limit_checks-Sound :
    (symbol : String) (now now_global : ℕ) (s : State) (c : Check)
    → c.allowed ≡ true
    → c.reasons ≡ []
    → Sound (limit_checks symbol now now_global s c)
unfolding limit_checks
limit_checks-Sound symbol now now_global s c h k = ground arith

listed_off :
    (symbol : String) (now : ℕ) (s : State)
    → (listed symbol now s ≡ false) ↔ Entry (λ until. until < now) (lookup symbol s.blacklist)
unfolding listed
listed_off symbol now s = ground arith

abbrev start : String → ℕ → Check
start symbol stamp = record { symbol = symbol; timestamp = stamp; allowed = true; reasons = [] }

-- The result of the check, as a function of the state.
verdict : String → ℕ → ℕ → ℕ → ℕ → State → Check
verdict symbol stamp now_list now now_global s =
    if s.config.enable_cooldown
    then if listed symbol now_list s
      then record (start symbol stamp) { allowed = false; reasons = in_blacklist symbol ∷ [] }
      else limit_checks symbol now now_global (expire symbol now_list s) (start symbol stamp)
    else start symbol stamp

limit_checks-expire :
    (symbol : String) (now_list now now_global : ℕ) (s : State) (c : Check)
    → limit_checks symbol now now_global (expire symbol now_list s) c
      ≡ limit_checks symbol now now_global s c
unfolding limit_checks daily_trade_count weekly_trade_count global_cooldown_time
limit_checks-expire symbol now_list now now_global s c =
    let (a, b, d) = expire-keeps symbol now_list s in rw (a, b, d)

verdict_returns :
    (symbol : String) (stamp now_list now now_global : ℕ) (s : State)
    → (t : State) × (check_trade_cooldown symbol stamp now_list now now_global
          (record { mu = free; inner = s })
        ≡ done (verdict symbol stamp now_list now now_global s, record { mu = free; inner = t }))
unfolding check_trade_cooldown verdict
verdict_returns symbol stamp now_list now now_global s = (
  if s.config.enable_cooldown then expire symbol now_list s else s,
  ground (arith, is_blacklisted_lem symbol now_list writing s),
)

verdict_iff :
    (symbol : String) (stamp now_list now now_global : ℕ) (s : State)
    → ((verdict symbol stamp now_list now now_global s).allowed ≡ true)
      ↔ ((s.config.enable_cooldown ≡ false) ⊎ MayTrade symbol now_list now now_global s)
unfolding verdict
verdict_iff symbol stamp now_list now now_global s = ground (
  arith,
  listed_off symbol now_list s,
  limit_checks-expire symbol now_list now now_global s (start symbol stamp),
  limit_checks_allowed symbol now now_global s (start symbol stamp),
  global_cooldown_iff now_global s,
)

verdict-Sound :
    (symbol : String) (stamp now_list now now_global : ℕ) (s : State)
    → Sound (verdict symbol stamp now_list now now_global s)
unfolding verdict
verdict-Sound symbol stamp now_list now now_global s = ground (
  arith,
  limit_checks-Sound symbol now now_global (expire symbol now_list s) (start symbol stamp),
)

-- The check always returns, and allows a trade exactly when the cooldown is off or the stock is not
-- on the blacklist, has rested, is under its daily and weekly counts, and every tracked stock has
-- rested; a refusal carries at least one reason and an approval none.
pub check_trade_cooldown_iff :
    (symbol : String) (stamp now_list now now_global : ℕ) (s : State)
    → (c : Check) × (t : State) × (check_trade_cooldown symbol stamp now_list now now_global
          (record { mu = free; inner = s })
        ≡ done (c, record { mu = free; inner = t }))
      × ((c.allowed ≡ true)
          ↔ ((s.config.enable_cooldown ≡ false) ⊎ MayTrade symbol now_list now now_global s))
      × ((c.allowed ≡ true) ↔ (c.reasons ≡ []))
check_trade_cooldown_iff symbol stamp now_list now now_global s =
    let (t, e) = verdict_returns symbol stamp now_list now now_global s in
    (
      verdict symbol stamp now_list now now_global s,
      t,
      e,
      verdict_iff symbol stamp now_list now now_global s,
      verdict-Sound symbol stamp now_list now now_global s,
    )
