-- ===== src/Strategies/Purchases.antt =====
-- What becomes of purchases in ProcessSignals of trading/strategies/strategy_manager.go, which gives
-- the signal handler an amount of 100.
use expert_octo_enigma.Prelude.{
  ℕ, suc, ◌≡◌, ap, ◌∙◌, sym, Bool, true, some, List, [], ◌∷◌, arith, eq_iff, All, inl, inr,
  Option-cases,
}
use expert_octo_enigma.Prelude.Int.{ℤ, pos}
use expert_octo_enigma.Float.{Float}
use expert_octo_enigma.Lock.{done, and_then, and_then-eq-done, done-injective}
use expert_octo_enigma.RiskManager.{Answers}
use expert_octo_enigma.Executor.{Broker, calculate_quantity, buy_request}
use expert_octo_enigma.Signals.{Handler, execute_signal}
use expert_octo_enigma.Signals.Execution.{execute_signal_small}
use expert_octo_enigma.Strategies.{Signal, validate_signal}
use expert_octo_enigma.Strategies.Managing.{
  Manager, trading_signal, process_one, process_all, process_signals,
}

module _ {F : Type 0} ⦃f : Float F⦄ where
  -- A signal to buy at a price at which an amount of 100 is less than one lot.
  abbrev pub TooDear : (F → ℤ) → Signal F → Type 0
  TooDear to_int s =
      (s.signal_type ≡ "buy")
      × (calculate_quantity to_int (buy_request to_int s.symbol s.price (f.lit 100 0)) ≡ pos 0)

  one_dear :
      (to_int : F → ℤ) (broker : Broker F) (answers : Answers F) (now : ℕ) (s : Signal F)
      (h k : Handler F)
      → TooDear to_int s
      → process_one to_int broker answers now s h ≡ done k
      → k.executor.placed ≡ h.executor.placed
  unfolding process_one trading_signal
  one_dear to_int broker answers now s h k (t, q) e = elim (Option-cases (validate_signal s)) [
    | inr (x, v) ↦ sym (
        ap (λ (z : Handler F). z.executor.placed) (done-injective h {y = k} (ground (arith, v, e))))
    | inl v ↦
        let run : and_then
              (execute_signal to_int broker answers (some (trading_signal s now)) s.price
                (f.lit 100 0) h)
              (λ r. done r.1)
            ≡ done k =
          ground (arith, v, t, eq_iff s.signal_type "buy", e) in
        let (r, a, b) =
          and_then-eq-done
            (execute_signal to_int broker answers (some (trading_signal s now)) s.price
              (f.lit 100 0) h)
            _ run in
        sym (ap (λ (z : Handler F). z.executor.placed) (done-injective r.1 b))
        ∙ execute_signal_small to_int broker answers (trading_signal s now) s.price (f.lit 100 0) h
            r t q a
  ]

  all_dear :
      (to_int : F → ℤ) (broker : ℕ → Broker F) (answers : ℕ → Answers F) (now i : ℕ)
      (signals : List (Signal F)) (h k : Handler F)
      → All (TooDear to_int) signals
      → process_all to_int broker answers now i signals h ≡ done k
      → k.executor.placed ≡ h.executor.placed
  unfolding process_all
  all_dear to_int broker answers now i [] h k t e =
      sym (ap (λ (z : Handler F). z.executor.placed) (done-injective h e))
  all_dear to_int broker answers now i (s ∷ ss) h k t e =
      let (g, a, b) = and_then-eq-done (process_one to_int (broker i) (answers i) now s h) _ e in
      all_dear to_int broker answers now (suc i) ss g k t.1 b
      ∙ one_dear to_int (broker i) (answers i) now s h g t.0 a

  -- When all signals that are processed are to buy, at prices at which the quantity for an amount of
  -- 100 rounds down to no lot, and the call returns, it answers success and no order is sent.
  pub dear_signals_unsent :
      (to_int : F → ℤ) (broker : ℕ → Broker F) (answers : ℕ → Answers F) (now : ℕ)
      (signals : List (Signal F)) (m : Manager F) (h : Handler F) (r : Bool × Manager F)
      → m.handler ≡ some h
      → All (TooDear to_int) signals
      → process_signals to_int broker answers now signals m ≡ done r
      → (r.0 ≡ true)
        × (k : Handler F) × (r.1.handler ≡ some k)
        × (k.executor.placed ≡ h.executor.placed)
  unfolding process_signals
  dear_signals_unsent to_int broker answers now signals m h r j t e =
      let run : and_then (process_all to_int broker answers now 0 signals h)
            (λ k. done (true, record m { handler = some k }))
          ≡ done r =
        ground (arith, j, e) in
      let (k, a, b) = and_then-eq-done (process_all to_int broker answers now 0 signals h) _ run in
      let s = done-injective {A = Bool × Manager F} (true, record m { handler = some k }) b in
      (
        sym (ap (λ (z : Bool × Manager F). z.0) s),
        k,
        sym (ap (λ (z : Bool × Manager F). z.1.handler) s),
        all_dear to_int broker answers now 0 signals h k t a,
      )
