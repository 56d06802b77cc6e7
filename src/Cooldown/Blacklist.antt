-- ===== src/Cooldown/Blacklist.antt =====
-- What a recorded trade does to the next check of the stock (trading/risk/cooldown_risk.go).
use expert_octo_enigma.Prelude.{
  ℕ, ◌+◌, ◌≤◌, ◌<◌, String, ◌≡◌, refl, true, false, some, [], ◌∷◌, arith, eq_iff, subst, ap, inl,
  inr, Bool-cases,
}
use expert_octo_enigma.Table.{lookup, lookup-insert}
use expert_octo_enigma.Lock.{free, writing, done, ◌>>◌}
use expert_octo_enigma.Cooldown.{
  Config, Check, State, in_blacklist, or_zero, record_trade, check_trade_cooldown, count_trade,
  blacklist_if_busy, should_add_to_blacklist,
}
use expert_octo_enigma.Cooldown.Expiry.{listed, expire, is_blacklisted_lem}
use expert_octo_enigma.Cooldown.Verdict.{MayTrade, Entry, check_trade_cooldown_iff}

-- The recorded state has a new time and count of the stock, and, from the eleventh trade on, a
-- blacklist entry.
recorded-lookup :
    (symbol : String) (now : ℕ) (s : State)
    → let t = blacklist_if_busy symbol now (count_trade symbol now s) in
      (t.config ≡ s.config)
      × (lookup symbol t.last_trades ≡ some now)
      × (lookup symbol t.trade_counts ≡ some (or_zero (lookup symbol s.trade_counts) + 1))
unfolding blacklist_if_busy count_trade
recorded-lookup symbol now s = ground (
  arith,
  eq_iff symbol symbol,
  lookup-insert symbol symbol now s.last_trades,
  lookup-insert symbol symbol (or_zero (lookup symbol s.trade_counts) + 1) s.trade_counts,
)

recorded-blacklist :
    (symbol : String) (now : ℕ) (s : State)
    → 10 ≤ or_zero (lookup symbol s.trade_counts)
    → lookup symbol (blacklist_if_busy symbol now (count_trade symbol now s)).blacklist
      ≡ some (now + s.config.blacklist_duration)
unfolding blacklist_if_busy count_trade should_add_to_blacklist
recorded-blacklist symbol now s h = ground (
  arith,
  eq_iff symbol symbol,
  lookup-insert symbol symbol (or_zero (lookup symbol s.trade_counts) + 1) s.trade_counts,
  lookup-insert symbol symbol (now + s.config.blacklist_duration) s.blacklist,
)

listed_while :
    (symbol : String) (now until : ℕ) (s : State)
    → lookup symbol s.blacklist ≡ some until
    → now ≤ until
    → listed symbol now s ≡ true
unfolding listed
listed_while symbol now until s e h = ground arith

-- From the eleventh recorded trade on, a check of the stock until the blacklist entry runs out
-- returns a refusal with that one reason.
pub record_trade_blacklists :
    (symbol : String) (now stamp now_list later now_global : ℕ) (s : State)
    → s.config.enable_cooldown ≡ true
    → 10 ≤ or_zero (lookup symbol s.trade_counts)
    → now_list ≤ now + s.config.blacklist_duration
    → (c : Check) × (t : State) × ((do
      record_trade symbol now
      check_trade_cooldown symbol stamp now_list later now_global)
          (record { mu = free; inner = s })
        ≡ done (c, record { mu = free; inner = t }))
      × (c.allowed ≡ false)
      × (c.reasons ≡ in_blacklist symbol ∷ [])
unfolding record_trade check_trade_cooldown
record_trade_blacklists symbol now stamp now_list later now_global s on busy soon =
    let t = blacklist_if_busy symbol now (count_trade symbol now s) in
    (
      record {
        symbol = symbol;
        timestamp = stamp;
        allowed = false;
        reasons = in_blacklist symbol ∷ [];
      },
      expire symbol now_list t,
      ground (
        arith,
        (recorded-lookup symbol now s).0,
        recorded-blacklist symbol now s busy,
        listed_while symbol now_list (now + s.config.blacklist_duration) t,
        is_blacklisted_lem symbol now_list writing t,
      ),
      refl,
      refl,
    )

MayTrade-not :
    (symbol : String) (now_list later now_global last : ℕ) (t : State)
    → lookup symbol t.last_trades ≡ some last
    → later < last + t.config.min_trade_interval
    → ¬ MayTrade symbol now_list later now_global t
MayTrade-not symbol now_list later now_global last t e soon m =
    let rested : Entry (λ l. l + t.config.min_trade_interval ≤ later) (some last) =
      subst (Entry (λ l. l + t.config.min_trade_interval ≤ later)) e m.rested in
    omega arith

-- A stock that was just traded is refused until the minimum interval has passed.
pub record_trade_refuses :
    (symbol : String) (now stamp now_list later now_global : ℕ) (s : State)
    → s.config.enable_cooldown ≡ true
    → later < now + s.config.min_trade_interval
    → (c : Check) × (t : State) × ((do
      record_trade symbol now
      check_trade_cooldown symbol stamp now_list later now_global)
          (record { mu = free; inner = s })
        ≡ done (c, record { mu = free; inner = t }))
      × (c.allowed ≡ false)
unfolding record_trade check_trade_cooldown
record_trade_refuses symbol now stamp now_list later now_global s on soon =
    let t = blacklist_if_busy symbol now (count_trade symbol now s) in
    let (config, last, count) = recorded-lookup symbol now s in
    let (c, u, e, verdict, sound) =
      check_trade_cooldown_iff symbol stamp now_list later now_global t in
    (
      c,
      u,
      e,
      elim (Bool-cases c.allowed) [
        | inl passed ↦ elim (verdict.0 passed) [
          | inl off ↦ cc (ap (λ (k : Config). k.enable_cooldown) config)
          | inr m ↦
              absurd (MayTrade-not symbol now_list later now_global now t last (rw config soon) m)
        ]
        | inr refused ↦ refused
      ],
    )
