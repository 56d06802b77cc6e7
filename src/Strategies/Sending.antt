-- ===== src/Strategies/Sending.antt =====
-- What ProcessSignals of trading/strategies/strategy_manager.go sends to the broker.
use expert_octo_enigma.Prelude.{
  ℕ, suc, ◌≡◌, refl, ap, ◌∙◌, subst, sym, Bool, true, none, some, List, [], ◌∷◌, ◌++◌, ◌⊎◌, inl,
  inr, arith, str_eq, eq_iff, Bool-cases, Option-cases, append_assoc, append-nil,
}
use expert_octo_enigma.Prelude.Int.{ℤ}
use expert_octo_enigma.Float.{Float}
use expert_octo_enigma.Lock.{done, and_then, and_then-eq-done, done-injective}
use expert_octo_enigma.RiskManager.{Answers}
use expert_octo_enigma.Executor.{Broker, Placed}
use expert_octo_enigma.Signals.{Handler, execute_signal}
use expert_octo_enigma.Signals.Execution.{execute_signal_sends}
use expert_octo_enigma.Strategies.{Signal, validate_signal}
use expert_octo_enigma.Strategies.Managing.{
  Manager, trading_signal, process_one, process_all, process_signals,
}

module _ {F : Type 0} ⦃f : Float F⦄ where
  -- An order for a valid signal to buy or to sell, of its type and symbol.
  abbrev pub OrderFor : Signal F → Placed F → Type 0
  OrderFor s o =
      (validate_signal s ≡ none)
      × ((s.signal_type ≡ "buy") ⊎ (s.signal_type ≡ "sell"))
      × (o.type ≡ s.signal_type)
      × (o.symbol ≡ s.symbol)

  -- In the order of the signals, each has one order or none.
  abbrev pub OrdersFor : List (Signal F) → List (Placed F) → Type 0
  OrdersFor [] added = added ≡ []
  OrdersFor (s ∷ ss) added =
      OrdersFor ss added
      ⊎ ((o : Placed F) × (rest : List (Placed F)) × (added ≡ o ∷ rest)
          × OrderFor s o
          × OrdersFor ss rest)

  abbrev Grows : Signal F → Handler F → Handler F → Type 0
  Grows s h k =
      (k.executor.placed ≡ h.executor.placed)
      ⊎ ((o : Placed F) × (k.executor.placed ≡ h.executor.placed ++ o ∷ []) × OrderFor s o)

  executed_sends :
      (to_int : F → ℤ) (broker : Broker F) (answers : Answers F) (now : ℕ) (s : Signal F)
      (amount : F) (h k : Handler F)
      → validate_signal s ≡ none
      → (s.signal_type ≡ "buy") ⊎ (s.signal_type ≡ "sell")
      → and_then
          (execute_signal to_int broker answers (some (trading_signal s now)) s.price amount h)
          (λ r. done r.1)
        ≡ done k
      → Grows s h k
  unfolding trading_signal
  executed_sends to_int broker answers now s amount h k v t e =
      let (r, a, b) =
        and_then-eq-done
          (execute_signal to_int broker answers (some (trading_signal s now)) s.price amount h) _
          e in
      subst (Grows s h) (done-injective r.1 b)
        (elim (execute_signal_sends to_int broker answers (trading_signal s now) s.price amount h r
          a) [
            | inl same ↦ inl same
            | inr (inl same, more) ↦ inl same
            | inr (inr (o, p, q, w), more) ↦ inr (o, p, (v, t, q, w))
          ])

  one_sends :
      (to_int : F → ℤ) (broker : Broker F) (answers : Answers F) (now : ℕ) (s : Signal F)
      (h k : Handler F)
      → process_one to_int broker answers now s h ≡ done k
      → Grows s h k
  unfolding process_one
  one_sends to_int broker answers now s h k e = elim (Option-cases (validate_signal s)) [
    | inr (x, v) ↦ subst (Grows s h) (done-injective h {y = k} (ground (arith, v, e))) (inl refl)
    | inl v ↦ elim (Bool-cases (str_eq s.signal_type "buy")) [
      | inl b ↦
          executed_sends to_int broker answers now s (f.lit 100 0) h k v
            (inl (ground (arith, b, eq_iff s.signal_type "buy"))) (ground (arith, v, b, e))
      | inr b ↦ elim (Bool-cases (str_eq s.signal_type "sell")) [
        | inl c ↦
            executed_sends to_int broker answers now s (f.lit 0 0) h k v
              (inr (ground (arith, c, eq_iff s.signal_type "sell"))) (ground (arith, v, b, c, e))
        | inr c ↦
            subst (Grows s h) (done-injective h {y = k} (ground (arith, v, b, c, e))) (inl refl)
      ]
    ]
  ]

  abbrev Added : List (Signal F) → Handler F → Handler F → Type 0
  Added signals h k =
      (added : List (Placed F)) × (k.executor.placed ≡ h.executor.placed ++ added)
      × OrdersFor signals added

  all_send :
      (to_int : F → ℤ) (broker : ℕ → Broker F) (answers : ℕ → Answers F) (now i : ℕ)
      (signals : List (Signal F)) (h k : Handler F)
      → process_all to_int broker answers now i signals h ≡ done k
      → Added signals h k
  unfolding process_all
  all_send to_int broker answers now i [] h k e =
      subst (Added [] h) (done-injective h e) ([], sym (append-nil h.executor.placed), refl)
  all_send to_int broker answers now i (s ∷ ss) h k e =
      let (g, a, b) = and_then-eq-done (process_one to_int (broker i) (answers i) now s h) _ e in
      let (added, c, d) = all_send to_int broker answers now (suc i) ss g k b in
      elim (one_sends to_int (broker i) (answers i) now s h g a) [
        | inl same ↦ (added, c ∙ ap (λ l. l ++ added) same, inl d)
        | inr (o, p, q) ↦ (
          o ∷ added,
          c ∙ ap (λ l. l ++ added) p ∙ append_assoc h.executor.placed (o ∷ []) added,
          inr (o, added, refl, q, d),
        )
      ]

  -- When signals are processed with a signal handler and the call returns, it answers success, the
  -- manager still has a handler, and the orders that its executor has sent are those sent before and
  -- then, in the order of the signals, at most one for each: an order stands for a valid signal to buy
  -- or to sell, and has its type and symbol.
  pub process_signals_sends :
      (to_int : F → ℤ) (broker : ℕ → Broker F) (answers : ℕ → Answers F) (now : ℕ)
      (signals : List (Signal F)) (m : Manager F) (h : Handler F) (r : Bool × Manager F)
      → m.handler ≡ some h
      → process_signals to_int broker answers now signals m ≡ done r
      → (r.0 ≡ true)
        × (k : Handler F) × (added : List (Placed F)) × (r.1.handler ≡ some k)
        × (k.executor.placed ≡ h.executor.placed ++ added)
        × OrdersFor signals added
  unfolding process_signals
  process_signals_sends to_int broker answers now signals m h r j e =
      let run : and_then (process_all to_int broker answers now 0 signals h)
            (λ k. done (true, record m { handler = some k }))
          ≡ done r =
        ground (arith, j, e) in
      let (k, a, b) = and_then-eq-done (process_all to_int broker answers now 0 signals h) _ run in
      let (added, c, d) = all_send to_int broker answers now 0 signals h k a in
      let s = done-injective {A = Bool × Manager F} (true, record m { handler = some k }) b in
      (
        sym (ap (λ (z : Bool × Manager F). z.0) s),
        k,
        added,
        sym (ap (λ (z : Bool × Manager F). z.1.handler) s),
        c,
        d,
      )
