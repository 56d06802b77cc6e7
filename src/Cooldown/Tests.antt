-- ===== src/Cooldown/Tests.antt =====
-- Runs of trading/risk/cooldown_risk.go and its theorems at concrete inputs.
use expert_octo_enigma.Prelude.{◌≡◌, refl, ◌↔◌, ◌⊎◌, true, false, List, [], ◌∷◌}
use expert_octo_enigma.Table.{lookup}
use expert_octo_enigma.Lock.{free, done}
use expert_octo_enigma.Cooldown.{
  Config, State, Check, new, daily_trade_count, weekly_trade_count, check_trade_cooldown,
  global_cooldown_time, latest_from,
}
use expert_octo_enigma.Cooldown.Locks.{
  Call, records, clears, asks_all, lists, perform, after, perform_returns,
}
use expert_octo_enigma.Cooldown.Verdict.{MayTrade, check_trade_cooldown_iff}

abbrev limits : Config
limits = record {
  min_trade_interval = 60;
  max_daily_trades = 20;
  min_order_interval = 5;
  max_weekly_trades = 50;
  blacklist_duration = 1000;
  enable_cooldown = true;
}

abbrev busy : State
busy = record (new limits) {
  last_trades = ("600000", 900) ∷ [];
  trade_counts = ("600000", 10) ∷ [];
}

abbrev history : List Call
history =
    records "600000" 10
    ∷ clears
    ∷ records "600000" 20
    ∷ lists "000001" 50 30
    ∷ records "000001" 40
    ∷ records "600000" 90
    ∷ []

allowed_when_rested :
    check_trade_cooldown "600000" 960 960 960 960 (record { mu = free; inner = busy })
    ≡ done (
      record { symbol = "600000"; timestamp = 960; allowed = true; reasons = [] },
      record { mu = free; inner = busy },
    )
unfolding check_trade_cooldown daily_trade_count weekly_trade_count global_cooldown_time latest_from
    lookup
allowed_when_rested = refl

perform_returns_example :
    perform (asks_all (λ symbol. (7, 8))) (record { mu = free; inner = busy })
    ≡ done (tt, record { mu = free; inner = after (asks_all (λ symbol. (7, 8))) busy })
perform_returns_example = perform_returns (asks_all (λ symbol. (7, 8))) busy refl

check_trade_cooldown_iff_example :
    (c : Check) × (t : State) × (check_trade_cooldown "600000" 930 931 932 933
        (record { mu = free; inner = busy })
      ≡ done (c, record { mu = free; inner = t }))
    × ((c.allowed ≡ true) ↔ ((true ≡ false) ⊎ MayTrade "600000" 931 932 933 busy))
    × ((c.allowed ≡ true) ↔ (c.reasons ≡ []))
check_trade_cooldown_iff_example = check_trade_cooldown_iff "600000" 930 931 932 933 busy
