-- ===== src/Cooldown/Expiry.antt =====
-- `isBlacklisted` of trading/risk/cooldown_risk.go as two pure functions: its answer, and the state
-- from which an entry that has run out is gone.
use expert_octo_enigma.Prelude.{
  ℕ, String, ◌≡◌, Bool, false, not, none, some, arith, ltb, if◌then◌else◌,
}
use expert_octo_enigma.Table.{lookup, delete}
use expert_octo_enigma.Lock.{Mutex, done}
use expert_octo_enigma.Cooldown.{State, is_blacklisted}

unfoldable pub listed : String → ℕ → State → Bool
listed symbol now s = elim (lookup symbol s.blacklist) [
  | none ↦ false
  | some until ↦ not (ltb until now)
]

unfoldable pub expire : String → ℕ → State → State
expire symbol now s = elim (lookup symbol s.blacklist) [
  | none ↦ s
  | some until ↦ if ltb until now then record s { blacklist = delete symbol s.blacklist } else s
]

pub is_blacklisted_lem :
    (symbol : String) (now : ℕ) (mu : Mutex) (s : State)
    → is_blacklisted symbol now (record { mu = mu; inner = s })
      ≡ done (listed symbol now s, record { mu = mu; inner = expire symbol now s })
unfolding is_blacklisted listed expire
is_blacklisted_lem symbol now mu s = ground arith

pub expire-keeps :
    (symbol : String) (now : ℕ) (s : State)
    → ((expire symbol now s).last_trades ≡ s.last_trades)
      × ((expire symbol now s).trade_counts ≡ s.trade_counts)
      × ((expire symbol now s).config ≡ s.config)
unfolding expire
expire-keeps symbol now s = ground arith
