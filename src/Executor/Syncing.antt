-- ===== src/Executor/Syncing.antt =====
-- `SyncTrades` of trading/order_executor.go, once and again.
use expert_octo_enigma.Prelude.{
  ℕ, String, ◌≡◌, refl, ap, ◌∙◌, false, none, some, List, [], ◌∷◌, map, All,
}
use expert_octo_enigma.Prelude.Int.{pos, ltb_ℤ}
use expert_octo_enigma.Float.{Float}
use expert_octo_enigma.Lock.{done, free}
use expert_octo_enigma.Positions.{Positions, Trade, apply_trade, update_position}
use expert_octo_enigma.Positions.Holdings.{amount_at, ledger, trade_amount}
use expert_octo_enigma.Executor.{Executor, Broker, sync_loop, sync_trades}

module _ {F : Type 0} ⦃f : Float F⦄ where
  abbrev pub at_time : ℕ → List (Trade F) → List (ℕ × Trade F)
  at_time now = map (λ t. (now, t))

  loop_amount :
      (now : ℕ) (symbol : String) (ts : List (Trade F)) (m : Positions F)
      → All (λ t. ltb_ℤ t.amount (pos 0) ≡ false) ts
      → (n : Positions F) × (sync_loop now ts (record { mu = free; inner = m })
          ≡ done (tt, record { mu = free; inner = n }))
        × (amount_at symbol n ≡ ledger symbol (at_time now ts) (amount_at symbol m))
  unfolding sync_loop update_position ledger
  loop_amount now symbol [] m a = (m, refl, refl)
  loop_amount now symbol (t ∷ ts) m a =
      let (n, r, e) = loop_amount now symbol ts (apply_trade now t m) a.1 in
      (n, r, e ∙ ap (ledger symbol (at_time now ts)) (trade_amount now t symbol m a.0))

  -- Two `SyncTrades` with the same answer of the broker, of which no amount is negative, both succeed, and
  -- every trade counts twice: what is held of a symbol is what a ledger of the trades says that starts
  -- from what a ledger of the same trades says already.
  pub sync_twice :
      (first second : ℕ) (symbol : String) (broker : Broker F) (ts : List (Trade F))
      (m : Positions F) (x : Executor F)
      → broker.trades ≡ some ts
      → All (λ t. ltb_ℤ t.amount (pos 0) ≡ false) ts
      → (n k : Positions F) × (sync_trades first broker
            (record x { positions = record { mu = free; inner = m } })
          ≡ done (none, record x { positions = record { mu = free; inner = n } }))
        × (sync_trades second broker (record x { positions = record { mu = free; inner = n } })
            ≡ done (none, record x { positions = record { mu = free; inner = k } }))
        × (amount_at symbol k
            ≡ ledger symbol
                (at_time second ts)
                (ledger symbol (at_time first ts) (amount_at symbol m)))
  unfolding sync_trades
  sync_twice first second symbol broker ts m x b a =
      let (n, r, e) = loop_amount first symbol ts m a in
      let (k, r', e') = loop_amount second symbol ts n a in
      (n, k, rw (b, r) refl, rw (b, r') refl, e' ∙ ap (ledger symbol (at_time second ts)) e)
