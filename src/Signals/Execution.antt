-- ===== src/Signals/Execution.antt =====
-- What `ExecuteSignal` of trading/signal_handler.go sends to the broker.
use expert_octo_enigma.Prelude.{
  String, ◌≡◌, refl, ap, ◌∙◌, sym, subst, false, Option, none, some, ◌⊎◌, inl, inr, arith, str_eq,
  eq_iff, Bool-cases,
}
use expert_octo_enigma.Prelude.Int.{ℤ, pos}
use expert_octo_enigma.Float.{Float}
use expert_octo_enigma.Lock.{
  Outcome, done, blocked, crashed, and_then, and_then-eq-done, done-injective,
}
use expert_octo_enigma.RiskManager.{Answers}
use expert_octo_enigma.Positions.{PositionState, get_position}
use expert_octo_enigma.Executor.{
  Executor, Broker, ExecutionError, execute_buy, execute_sell, calculate_quantity, buy_request,
}
use expert_octo_enigma.Executor.Sends.{
  SendsOne, execute_buy_sends, execute_buy_small, execute_sell_sends,
}
use expert_octo_enigma.Signals.{
  TradingSignal, Handler, SignalError, below_threshold, carried, sell_all, act, execute_signal,
}

result_of : {A : Type 0} → A → Outcome A → A
result_of a (done b) = b
result_of a blocked = a
result_of a crashed = a

abbrev Answer : Type 0 → Type 0
Answer F = (SignalError ⊎ String) × Handler F

module _ {F : Type 0} ⦃f : Float F⦄ where
  carried-placed :
      (h : Handler F) (r : (ExecutionError ⊎ String) × Executor F)
      → (carried h r).1.executor.placed ≡ r.1.placed
  carried-placed h (inl e, x) = refl
  carried-placed h (inr id, x) = refl

  buy_sends :
      (to_int : F → ℤ) (broker : Broker F) (answers : Answers F) (symbol : String)
      (price amount : F) (h : Handler F) (z : Answer F)
      → and_then
          (execute_buy to_int broker answers symbol price amount h.executor)
          (λ r. done (carried h r))
        ≡ done z
      → SendsOne "buy" symbol h.executor.placed z.1.executor.placed
  unfolding result_of
  buy_sends to_int broker answers symbol price amount h z e =
      let (r, a, b) =
        and_then-eq-done (execute_buy to_int broker answers symbol price amount h.executor) _ e in
      subst (λ (w : Answer F). SendsOne "buy" symbol h.executor.placed w.1.executor.placed)
        (ap (result_of z) b)
        (subst (SendsOne "buy" symbol h.executor.placed) (sym (carried-placed h r))
          (execute_buy_sends to_int broker answers symbol price amount h.executor r.1 r.0 a))

  sell_all_sends :
      (broker : Broker F) (symbol : String) (price : F) (o : Option (PositionState F))
      (h : Handler F) (z : Answer F)
      → sell_all broker symbol price o h ≡ done z
      → SendsOne "sell" symbol h.executor.placed z.1.executor.placed
  unfolding sell_all result_of
  sell_all_sends broker symbol price none h z e =
      subst (λ (w : Answer F). SendsOne "sell" symbol h.executor.placed w.1.executor.placed)
        (ap (result_of z) e) (inl refl)
  sell_all_sends broker symbol price (some p) h z e =
      let (r, a, b) = and_then-eq-done (execute_sell broker symbol price p.amount h.executor) _ e in
      subst (λ (w : Answer F). SendsOne "sell" symbol h.executor.placed w.1.executor.placed)
        (ap (result_of z) b)
        (subst (SendsOne "sell" symbol h.executor.placed) (sym (carried-placed h r))
          (execute_sell_sends broker symbol price p.amount h.executor r.1 r.0 a))

  -- Executing a signal that returns sends at most one order, of the signal's action and symbol; a
  -- purchase is sent only for a signal whose confidence is not below the threshold.
  pub execute_signal_sends :
      (to_int : F → ℤ) (broker : Broker F) (answers : Answers F) (s : TradingSignal F)
      (price amount : F) (h : Handler F) (z : Answer F)
      → execute_signal to_int broker answers (some s) price amount h ≡ done z
      → (z.1.executor.placed ≡ h.executor.placed)
        ⊎ (SendsOne s.action s.symbol h.executor.placed z.1.executor.placed
            × ((s.action ≡ "sell") ⊎ (f.lt s.confidence h.ai_threshold ≡ false)))
  unfolding execute_signal act result_of
  execute_signal_sends to_int broker answers s price amount h z e =
      elim (Bool-cases (str_eq s.action "buy")) [
        | inl b ↦ elim (Bool-cases (f.lt s.confidence h.ai_threshold)) [
          | inl l ↦ inl (ground (arith, b, l, e))
          | inr l ↦
              let a : s.action ≡ "buy" = ground (arith, b, eq_iff s.action "buy") in
              inr (
                subst (λ k. SendsOne k s.symbol h.executor.placed z.1.executor.placed) (sym a)
                    (buy_sends to_int broker answers s.symbol price amount h z
                      (ground (arith, b, l, e))),
                inr l,
              )
        ]
        | inr b ↦ elim (Bool-cases (str_eq s.action "sell")) [
          | inr c ↦ inl (ground (arith, b, c, e))
          | inl c ↦
              let a : s.action ≡ "sell" = ground (arith, c, eq_iff s.action "sell") in
              let (r, p, q) =
                and_then-eq-done (get_position s.symbol h.executor.positions)
                  (λ x.
                    sell_all broker s.symbol price x.0
                      (record h { executor = record (h.executor) { positions = x.1 } }))
                  (ground (arith, b, c, e)) in
              inr (
                subst (λ k. SendsOne k s.symbol h.executor.placed z.1.executor.placed) (sym a)
                    (sell_all_sends broker s.symbol price r.0
                      (record h { executor = record (h.executor) { positions = r.1 } }) z q),
                inl a,
              )
        ]
      ]

  -- A purchase of less than one lot is not sent.
  pub execute_signal_small :
      (to_int : F → ℤ) (broker : Broker F) (answers : Answers F) (s : TradingSignal F)
      (price amount : F) (h : Handler F) (z : Answer F)
      → s.action ≡ "buy"
      → calculate_quantity to_int (buy_request to_int s.symbol price amount) ≡ pos 0
      → execute_signal to_int broker answers (some s) price amount h ≡ done z
      → z.1.executor.placed ≡ h.executor.placed
  unfolding execute_signal act
  execute_signal_small to_int broker answers s price amount h z t q e =
      elim (Bool-cases (f.lt s.confidence h.ai_threshold)) [
        | inl l ↦ sym (
            ap (λ (y : Answer F). y.1.executor.placed)
              (done-injective (inl below_threshold, h) {y = z}
                (ground (arith, t, eq_iff s.action "buy", l, e))))
        | inr l ↦
            let run : and_then (execute_buy to_int broker answers s.symbol price amount h.executor)
                  (λ r. done (carried h r))
                ≡ done z =
              ground (arith, t, eq_iff s.action "buy", l, e) in
            let (r, a, b) =
              and_then-eq-done (execute_buy to_int broker answers s.symbol price amount h.executor)
                _ run in
            sym (ap (λ (y : Answer F). y.1.executor.placed) (done-injective (carried h r) b))
            ∙ carried-placed h r
            ∙ execute_buy_small to_int broker answers s.symbol price amount h.executor r.1 r.0 q a
      ]
