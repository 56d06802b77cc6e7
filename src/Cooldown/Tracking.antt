-- ===== src/Cooldown/Tracking.antt =====
-- The two tables of trading/risk/cooldown_risk.go that `RecordTrade` fills, over any history of calls.
use expert_octo_enigma.Prelude.{
  ℕ, suc, ◌+◌, ◌≤◌, String, ◌≡◌, refl, ap, sym, ◌∙◌, false, List, [], ◌∷◌, map, arith, length, All,
  any, or_eq_false,
}
use expert_octo_enigma.Table.{Table, lookup, insert, values, Distinct, insert-Distinct}
use expert_octo_enigma.Lock.{free, done, Method, ◌>>◌, pure}
use expert_octo_enigma.Cooldown.{
  Config, State, Stats, new, or_zero, sum_from, stats_of, get_stats, count_trade, blacklist_if_busy,
}
use expert_octo_enigma.Cooldown.Expiry.{expire, expire-keeps}
use expert_octo_enigma.Cooldown.Locks.{
  Call, checks, records, asks, asks_all, unlists, lists, resets, clears, configures, reads_config,
  reads_stats, is_reset, perform, perform_returns, after, expire_all,
}

abbrev keys : Table ℕ → List String
keys = map (λ e. e.0)

-- Both tables have the same stocks, each once, and a stock in them was traded.
pub record Tracked (s : State) : Type 0 where
  pub same_keys : keys s.last_trades ≡ keys s.trade_counts
  pub distinct : Distinct s.trade_counts
  pub traded : All (λ n. 1 ≤ n) (values s.trade_counts)

new-Tracked : (c : Config) → Tracked (new c)
new-Tracked c = record { same_keys = refl; distinct = tt; traded = tt }

keys-insert :
    (k : String) (v w : ℕ) (m n : Table ℕ)
    → keys m ≡ keys n
    → keys (insert k v m) ≡ keys (insert k w n)
unfolding insert
keys-insert k v w [] [] h = refl
keys-insert k v w [] (e ∷ n) h = cc
keys-insert k v w (e ∷ m) [] h = cc
keys-insert k v w ((i, a) ∷ m) ((j, b) ∷ n) h = ground (arith, keys-insert k v w m n)

values-insert :
    (k : String) (v : ℕ) (m : Table ℕ)
    → 1 ≤ v
    → All (λ n. 1 ≤ n) (values m)
    → All (λ n. 1 ≤ n) (values (insert k v m))
unfolding insert
values-insert k v [] h a = ground arith
values-insert k v ((j, w) ∷ m) h a = ground (arith, values-insert k v m h a.1)

expire_all-keeps :
    (times : String → ℕ × ℕ) (m : Table ℕ) (s : State)
    → ((expire_all times m s).last_trades ≡ s.last_trades)
      × ((expire_all times m s).trade_counts ≡ s.trade_counts)
unfolding expire_all
expire_all-keeps times [] s = (refl, refl)
expire_all-keeps times ((symbol, t) ∷ m) s =
    let (a, b, c) = expire-keeps symbol (times symbol).1 s in
    let (d, e) = expire_all-keeps times m (expire symbol (times symbol).1 s) in (d ∙ a, e ∙ b)

Tracked-keeps :
    (s t : State)
    → t.last_trades ≡ s.last_trades
    → t.trade_counts ≡ s.trade_counts
    → Tracked s
    → Tracked t
Tracked-keeps s t a b h = record {
  same_keys = ap keys a ∙ h.same_keys ∙ ap keys (sym b);
  distinct = rw b h.distinct;
  traded = rw b h.traded;
}

record_keeps :
    (symbol : String) (now : ℕ) (s : State)
    → let t = blacklist_if_busy symbol now (count_trade symbol now s) in
      (t.last_trades ≡ insert symbol now s.last_trades)
      × (t.trade_counts ≡ insert symbol (or_zero (lookup symbol s.trade_counts) + 1) s.trade_counts)
unfolding blacklist_if_busy count_trade
record_keeps symbol now s = ground arith

records-Tracked :
    (symbol : String) (now : ℕ) (s : State)
    → Tracked s
    → Tracked (blacklist_if_busy symbol now (count_trade symbol now s))
records-Tracked symbol now s h =
    let (a, b) = record_keeps symbol now s in
    let n = or_zero (lookup symbol s.trade_counts) + 1 in
    record {
      same_keys =
          ap keys a
          ∙ keys-insert symbol now n s.last_trades s.trade_counts h.same_keys
          ∙ ap keys (sym b);
      distinct = rw b (insert-Distinct symbol n s.trade_counts h.distinct);
      traded = rw b (values-insert symbol n s.trade_counts (omega arith) h.traded);
    }

-- Every call keeps the two tables in step.
pub after-Tracked : (c : Call) (s : State) → Tracked s → Tracked (after c s)
unfolding after
after-Tracked (checks symbol a b c d) s h =
    let (x, y, z) = expire-keeps symbol b s in Tracked-keeps s _ (ground arith) (ground arith) h
after-Tracked (records symbol now) s h = records-Tracked symbol now s h
after-Tracked (asks symbol a b) s h =
    let (x, y, z) = expire-keeps symbol b s in Tracked-keeps s _ x y h
after-Tracked (asks_all times) s h =
    let (x, y) = expire_all-keeps times s.last_trades s in Tracked-keeps s _ x y h
after-Tracked (unlists symbol) s h = Tracked-keeps s _ refl refl h
after-Tracked (lists symbol duration now) s h = Tracked-keeps s _ refl refl h
after-Tracked (resets symbol) s h = h
after-Tracked clears s h = record { same_keys = refl; distinct = tt; traded = tt }
after-Tracked (configures c) s h = Tracked-keeps s _ refl refl h
after-Tracked reads_config s h = h
after-Tracked reads_stats s h = h

-- The trades of a history since the last `ClearAllCooldowns`, counted from `n`.
unfoldable pub trades_from : ℕ → List Call → ℕ
trades_from n [] = n
trades_from n (records symbol now ∷ cs) = trades_from (n + 1) cs
trades_from n (clears ∷ cs) = trades_from 0 cs
trades_from n (_ ∷ cs) = trades_from n cs

-- The calls of a history, one after the other.
pub perform_all : List Call → Method State (Unit {0})
unfolding perform
perform_all [] = pure tt
perform_all (c ∷ cs) = do perform c; perform_all cs

abbrev total : Table ℕ → ℕ
total m = sum_from 0 (values m)

sum_from-add : (a b : ℕ) (ns : List ℕ) → sum_from (a + b) ns ≡ a + sum_from b ns
unfolding sum_from
sum_from-add a b [] = refl
sum_from-add a b (n ∷ ns) = ap (λ (t : ℕ). sum_from t ns) (omega arith) ∙ sum_from-add a (b + n) ns

total-cons : (k : String) (v : ℕ) (m : Table ℕ) → total ((k, v) ∷ m) ≡ v + total m
unfolding sum_from
total-cons k v m = ap (λ (t : ℕ). sum_from t (values m)) (omega arith) ∙ sum_from-add v 0 (values m)

total-insert :
    (k : String) (m : Table ℕ) → total (insert k (or_zero (lookup k m) + 1) m) ≡ total m + 1
unfolding insert lookup
total-insert k [] = unfold sum_from in refl
total-insert k ((j, w) ∷ m) = ground (
  arith,
  total-cons j w m,
  total-cons j (w + 1) m,
  total-cons j w (insert k (or_zero (lookup k m) + 1) m),
  total-insert k m,
)

after-total :
    (c : Call) (cs : List Call) (s : State)
    → trades_from (total (after c s).trade_counts) cs ≡ trades_from (total s.trade_counts) (c ∷ cs)
unfolding after trades_from
after-total (checks symbol a b c d) cs s = ground (arith, (expire-keeps symbol b s).1)
after-total (records symbol now) cs s =
    rw ((record_keeps symbol now s).1, total-insert symbol s.trade_counts)
after-total (asks symbol a b) cs s = rw ((expire-keeps symbol b s).1)
after-total (asks_all times) cs s = rw ((expire_all-keeps times s.last_trades s).1)
after-total clears cs s = unfold sum_from in refl
after-total _ cs s = refl

perform_all_from :
    (cs : List Call) (s : State)
    → any is_reset cs ≡ false
    → Tracked s
    → (t : State) × (perform_all cs (record { mu = free; inner = s })
        ≡ done (tt, record { mu = free; inner = t }))
      × (total t.trade_counts ≡ trades_from (total s.trade_counts) cs)
      × Tracked t
unfolding perform_all
perform_all_from [] s h k = (s, refl, unfold trades_from in refl, k)
perform_all_from (c ∷ cs) s h k =
    let (first, rest) = or_eq_false (is_reset c) (any is_reset cs) h in
    let (t, e, n, v) = perform_all_from cs (after c s) rest (after-Tracked c s k) in
    (t, ground (arith, perform_returns c s first, e), n ∙ after-total c cs s, v)

length-le-total : (m : Table ℕ) → All (λ n. 1 ≤ n) (values m) → length m ≤ total m
length-le-total [] h = omega arith
length-le-total ((k, v) ∷ m) h = omega (arith, total-cons k v m, length-le-total m h.1)

length-keys : (m : Table ℕ) → length (keys m) ≡ length m
length-keys [] = refl
length-keys (e ∷ m) = ap suc (length-keys m)

-- After any history without a reset, from a new manager, the calls all return, the reported total is
-- the number of trades recorded since everything was last cleared, and it is at least the number of
-- stocks tracked.
pub perform_all-get_stats :
    (config : Config) (cs : List Call)
    → any is_reset cs ≡ false
    → (t : State) × (stats : Stats) × ((do perform_all cs; get_stats)
          (record { mu = free; inner = new config })
        ≡ done (stats, record { mu = free; inner = t }))
      × (stats.total_trades ≡ trades_from 0 cs)
      × (stats.total_tracked_symbols ≤ stats.total_trades)
unfolding get_stats sum_from
perform_all-get_stats config cs h =
    let (t, e, n, v) = perform_all_from cs (new config) h (new-Tracked config) in
    (
      t,
      stats_of t,
      ground (arith, e),
      n,
      omega (
        arith,
        length-le-total t.trade_counts v.traded,
        length-keys t.last_trades,
        length-keys t.trade_counts,
        ap length v.same_keys,
      ),
    )
