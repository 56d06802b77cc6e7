-- ===== src/Cooldown/Locks.antt =====
-- Which calls of trading/risk/cooldown_risk.go give their lock back, and which waits for itself.
use expert_octo_enigma.Prelude.{
  ℕ, suc, ◌+◌, String, ◌≡◌, refl, Bool, true, false, [], ◌∷◌, arith, if◌then◌else◌,
}
use expert_octo_enigma.Table.{Table, insert, delete}
use expert_octo_enigma.Lock.{free, reading, writing, done, blocked, Method, ◌>>=◌, pure}
use expert_octo_enigma.Cooldown.{
  Config, State, Status, check_trade_cooldown, record_trade, cooldown_status, status_loop,
  all_cooldown_status, remove_from_blacklist, add_to_blacklist, reset_cooldown, clear_all_cooldowns,
  set_config, get_config, get_stats, count_trade, blacklist_if_busy, status_at,
}
use expert_octo_enigma.Cooldown.Expiry.{listed, expire, is_blacklisted_lem}

-- One call of an exported method, with its arguments and readings of the clock.
pub data Call : Type 0 where
  checks : String → ℕ → ℕ → ℕ → ℕ → Call
  records : String → ℕ → Call
  asks : String → ℕ → ℕ → Call
  asks_all : (String → ℕ × ℕ) → Call
  unlists : String → Call
  lists : String → ℕ → ℕ → Call
  resets : String → Call
  clears : Call
  configures : Config → Call
  reads_config : Call
  reads_stats : Call

abbrev ignore {ℓ} : {A : Type ℓ} → Method State A → Method State (Unit {0})
ignore m = m >>= λ _. pure tt

unfoldable pub perform : Call → Method State (Unit {0})
perform (checks symbol a b c d) = ignore (check_trade_cooldown symbol a b c d)
perform (records symbol now) = record_trade symbol now
perform (asks symbol a b) = ignore (cooldown_status symbol a b)
perform (asks_all times) = ignore (all_cooldown_status times)
perform (unlists symbol) = remove_from_blacklist symbol
perform (lists symbol duration now) = add_to_blacklist symbol duration now
perform (resets symbol) = reset_cooldown symbol
perform clears = clear_all_cooldowns
perform (configures c) = set_config c
perform reads_config = ignore get_config
perform reads_stats = ignore get_stats

abbrev pub is_reset : Call → Bool
is_reset (resets symbol) = true
is_reset _ = false

-- Each stock's entry is read, and dropped if it has run out.
unfoldable pub expire_all : (String → ℕ × ℕ) → Table ℕ → State → State
expire_all times [] s = s
expire_all times ((symbol, t) ∷ rest) s = expire_all times rest (expire symbol (times symbol).1 s)

-- The state that a call which returns leaves behind.
unfoldable pub after : Call → State → State
unfolding expire_all
after (checks symbol a b c d) s = if s.config.enable_cooldown then expire symbol b s else s
after (records symbol now) s = blacklist_if_busy symbol now (count_trade symbol now s)
after (asks symbol a b) s = expire symbol b s
after (asks_all times) s = expire_all times s.last_trades s
after (unlists symbol) s = record s { blacklist = delete symbol s.blacklist }
after (lists symbol duration now) s = record s {
  blacklist = insert symbol (now + duration) s.blacklist;
}
after (resets symbol) s = s
after clears s = record s { last_trades = []; trade_counts = []; blacklist = [] }
after (configures c) s = record s { config = c }
after reads_config s = s
after reads_stats s = s

cooldown_status_returns :
    (symbol : String) (a b n : ℕ) (s : State)
    → (r : Status) × (cooldown_status symbol a b (record { mu = reading n; inner = s })
        ≡ done (r, record { mu = reading n; inner = expire symbol b s }))
unfolding cooldown_status
cooldown_status_returns symbol a b n s = (
  status_at symbol a (listed symbol b s) (expire symbol b s),
  ground (arith, is_blacklisted_lem symbol b (reading (suc n)) s),
)

status_loop_returns :
    (times : String → ℕ × ℕ) (tracked : Table ℕ) (n : ℕ) (s : State)
    → (r : Table Status) × (status_loop times tracked (record { mu = reading n; inner = s })
        ≡ done (r, record { mu = reading n; inner = expire_all times tracked s }))
unfolding status_loop expire_all
status_loop_returns times [] n s = ([], refl)
status_loop_returns times ((symbol, t) ∷ rest) n s =
    let (one, e) = cooldown_status_returns symbol (times symbol).0 (times symbol).1 n s in
    let (others, f) = status_loop_returns times rest n (expire symbol (times symbol).1 s) in
    (insert symbol one others, ground arith)

asks_all_returns :
    (times : String → ℕ × ℕ) (s : State)
    → perform (asks_all times) (record { mu = free; inner = s })
      ≡ done (tt, record { mu = free; inner = after (asks_all times) s })
unfolding perform all_cooldown_status after
asks_all_returns times s = let (r, e) = status_loop_returns times s.last_trades 0 s in ground arith

-- Every call on a free lock but `ResetCooldown` returns with the lock free again.
pub perform_returns :
    (c : Call) (s : State)
    → is_reset c ≡ false
    → perform c (record { mu = free; inner = s })
      ≡ done (tt, record { mu = free; inner = after c s })
unfolding perform after check_trade_cooldown cooldown_status record_trade
perform_returns (checks symbol a b c d) s h = ground (arith, is_blacklisted_lem symbol b writing s)
perform_returns (records symbol now) s h = ground arith
perform_returns (asks symbol a b) s h = ground (arith, is_blacklisted_lem symbol b (reading 0) s)
perform_returns (asks_all times) s h = asks_all_returns times s
perform_returns (unlists symbol) s h = unfold remove_from_blacklist in refl
perform_returns (lists symbol duration now) s h = unfold add_to_blacklist in refl
perform_returns (resets symbol) s h = cc
perform_returns clears s h = unfold clear_all_cooldowns in refl
perform_returns (configures c) s h = unfold set_config in refl
perform_returns reads_config s h = unfold get_config in refl
perform_returns reads_stats s h = unfold get_stats in refl

-- `ResetCooldown` waits for ever on the lock that it holds itself, whatever the state.
pub reset_cooldown_blocks :
    (symbol : String) (s : State)
    → perform (resets symbol) (record { mu = free; inner = s }) ≡ blocked
unfolding perform reset_cooldown
reset_cooldown_blocks symbol s = refl
