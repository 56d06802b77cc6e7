-- ===== src/Strategies/Counting.antt =====
-- What executeStrategies of trading/strategies/strategy_manager.go counts.
use expert_octo_enigma.Prelude.{
  ℕ, ◌+◌, String, ◌≡◌, refl, ap, subst, Option-cases, Bool-cases, Bool, true, false, none, some,
  List, [], ◌∷◌, arith, length, if◌then◌else◌, inl, inr,
}
use expert_octo_enigma.Prelude.Int.{pos}
use expert_octo_enigma.Table.{Table}
use expert_octo_enigma.Float.{Float}
use expert_octo_enigma.Lock.{done, and_then-eq-done, done-injective}
use expert_octo_enigma.Strategies.{
  Signal, MarketData, StrategyError, Generated, generation_failed, no_signal, generated, Strategy,
  validate_signal,
}
use expert_octo_enigma.Strategies.Loading.{get_enabled_strategies}
use expert_octo_enigma.Strategies.Combining.{Sorter}
use expert_octo_enigma.Strategies.Managing.{
  Manager, ExecutionResult, get_success_count, gather, execute_strategies, run_enabled, result_of,
  execute_single_strategy, sent_by, checked_signal, label_signal, Sent, sends_error, sends_signal,
  add_sent,
}

abbrev Channels : Type 0 → Type 0
Channels F = List (Signal F) × List StrategyError

module _ {F : Type 0} ⦃f : Float F⦄ where
  -- A strategy succeeds when it has nothing to say or a signal that is valid.
  abbrev pub succeeds : MarketData F → Strategy F → Bool
  succeeds market strategy = elim (strategy.generate strategy.parameters market) [
    | generation_failed ↦ false
    | no_signal ↦ true
    | generated s ↦ elim (validate_signal s) [ none ↦ true | some e ↦ false ]
  ]

  abbrev pub successes : MarketData F → Table (Strategy F) → ℕ
  successes market [] = 0
  successes market ((name, s) ∷ rest) =
      let more = successes market rest in if succeeds market s then more + 1 else more

  sent-count :
      (market : MarketData F) (name : String) (s : Strategy F) (g : Generated F) (sent : Sent F)
      (r : Channels F)
      → s.generate s.parameters market ≡ g
      → sent_by name s g ≡ done sent
      → length (add_sent sent r).1 + (if succeeds market s then 1 else 0) ≡ length r.1 + 1
  unfolding sent_by checked_signal label_signal
  sent-count market name s generation_failed sent r g e =
      subst (λ z. length (add_sent z r).1 + (if succeeds market s then 1 else 0) ≡ length r.1 + 1)
        (done-injective _ e) (ground (arith, g))
  sent-count market name s no_signal sent r g e =
      subst (λ z. length (add_sent z r).1 + (if succeeds market s then 1 else 0) ≡ length r.1 + 1)
        (done-injective _ e) (ground (arith, g))
  sent-count market name s (generated x) sent r g e = elim (Option-cases (validate_signal x)) [
    | inr (k, v) ↦
        subst (λ z. length (add_sent z r).1 + (if succeeds market s then 1 else 0) ≡ length r.1 + 1)
          (done-injective {A = Sent F} (sends_error k) (ground (arith, v, e)))
          (ground (arith, g, v))
    | inl v ↦ elim (Bool-cases x.has_metadata) [
      | inl m ↦
          subst
            (λ z. length (add_sent z r).1 + (if succeeds market s then 1 else 0) ≡ length r.1 + 1)
            (done-injective {A = Sent F}
              (sends_signal
                (record x { strategy_weight = some s.weight; strategy_name = some name }))
              (ground (arith, v, m, e)))
            (ground (arith, g, v))
      | inr m ↦ ground (arith, v, m, e)
    ]
  ]

  gather-count :
      (ss : Table (Strategy F)) (market : MarketData F) (r : Channels F)
      → gather ss market ≡ done r
      → length r.1 + successes market ss ≡ length ss
  unfolding gather execute_single_strategy
  gather-count [] market r e = ground (arith, done-injective _ e)
  gather-count ((name, s) ∷ ss) market r e =
      let (sent, a, b) = and_then-eq-done (execute_single_strategy name s market) _ e in
      let (q, c, d) = and_then-eq-done (gather ss market) _ b in
      ground (
        arith,
        ap (λ (x : Channels F). length x.1) (done-injective (add_sent sent q) d),
        sent-count market name s (s.generate s.parameters market) sent q refl a,
        gather-count ss market q c,
      )

  enabled_counts :
      (sort : Sorter F) (arrive : List (Signal F) → List (Signal F)) (market : MarketData F)
      (now : ℕ) (es : Table (Strategy F)) (n : Manager F) (r : ExecutionResult F × Manager F)
      → run_enabled sort arrive market now n es ≡ done r
      → (r.0.strategy_count ≡ length es) × (get_success_count r.0 ≡ pos (successes market es))
  unfolding run_enabled result_of get_success_count
  enabled_counts sort arrive market now [] n r e =
      subst
        (λ (z : ExecutionResult F × Manager F).
          (z.0.strategy_count ≡ 0) × (get_success_count z.0 ≡ pos 0))
        (done-injective _ e) (refl, refl)
  enabled_counts sort arrive market now (s ∷ ss) n r e =
      let (q, a, b) = and_then-eq-done (gather (s ∷ ss) market) _ e in
      subst
        (λ (z : ExecutionResult F × Manager F).
          (z.0.strategy_count ≡ length (s ∷ ss))
          × (get_success_count z.0 ≡ pos (successes market (s ∷ ss))))
        (done-injective _ b) (refl, ground (arith, gather-count (s ∷ ss) market q a))

  -- When the strategies' execution returns with strategies that are enabled, the result counts every
  -- enabled strategy, and its count of successes is the number of the enabled strategies that answer
  -- without an error, with no signal or with a valid one.
  pub success_count :
      (sort : Sorter F) (arrive : List (Signal F) → List (Signal F)) (market : MarketData F)
      (now : ℕ) (m : Manager F) (r : ExecutionResult F × Manager F)
      → execute_strategies sort arrive market now m ≡ done r
      → (r.0.strategy_count ≡ length (get_enabled_strategies m.loader))
        × (get_success_count r.0 ≡ pos (successes market (get_enabled_strategies m.loader)))
  unfolding execute_strategies
  success_count sort arrive market now m r e =
      enabled_counts sort arrive market now (get_enabled_strategies m.loader) _ r e
