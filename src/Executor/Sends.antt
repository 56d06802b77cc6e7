-- ===== src/Executor/Sends.antt =====
-- How many orders trading/order_executor.go sends to the broker at a time.
use expert_octo_enigma.Prelude.{
  String, ◌≡◌, refl, ap, ◌∙◌, sym, subst, Option, none, some, List, [], ◌∷◌, ◌++◌, ◌⊎◌, inl, inr,
  Bool-cases,
}
use expert_octo_enigma.Prelude.Int.{ℤ, pos, ltb_ℤ}
use expert_octo_enigma.Float.{Float}
use expert_octo_enigma.Lock.{Outcome, done, blocked, crashed, and_then-eq-done, done-injective}
use expert_octo_enigma.RiskManager.{RiskError, Answers, check_before_order}
use expert_octo_enigma.Positions.{PositionState, get_position}
use expert_octo_enigma.Executor.{
  Executor, Broker, Placed, ExecutionError, execute_buy, after_check, place_buy, buy_request,
  execute_sell, sell_from, calculate_quantity,
}

-- Nothing more is sent, or one order of the kind and for the symbol.
abbrev pub SendsOne : {F : Type 0} → String → String → List (Placed F) → List (Placed F) → Type 0
SendsOne {F} type symbol before after =
    (after ≡ before)
    ⊎ ((o : Placed F) × (after ≡ before ++ o ∷ []) × (o.type ≡ type) × (o.symbol ≡ symbol))

result_of : {A : Type 0} → A → Outcome A → A
result_of a (done b) = b
result_of a blocked = a
result_of a crashed = a

module _ {F : Type 0} ⦃f : Float F⦄ where
  checked_sends :
      (to_int : F → ℤ) (broker : Broker F) (symbol : String) (price amount : F)
      (o : Option RiskError) (x : Executor F)
      → SendsOne "buy" symbol x.placed
          (after_check to_int broker (buy_request to_int symbol price amount) o x).1.placed
  unfolding place_buy
  checked_sends to_int broker symbol price amount none x =
      let quantity = calculate_quantity to_int (buy_request to_int symbol price amount) in
      elim (Bool-cases (ltb_ℤ (pos 0) quantity)) [
        | inl n ↦ rw (place_buy, n) (inr (_, refl, refl, refl))
        | inr n ↦ rw (place_buy, n) (inl refl)
      ]
  checked_sends to_int broker symbol price amount (some e) x = inl refl

  pub execute_buy_sends :
      (to_int : F → ℤ) (broker : Broker F) (answers : Answers F) (symbol : String)
      (price amount : F) (x y : Executor F) (r : ExecutionError ⊎ String)
      → execute_buy to_int broker answers symbol price amount x ≡ done (r, y)
      → SendsOne "buy" symbol x.placed y.placed
  unfolding execute_buy result_of
  execute_buy_sends to_int broker answers symbol price amount x y r h =
      let order = buy_request to_int symbol price amount in
      let (c, a, b) = and_then-eq-done (check_before_order answers order x.risk) _ h in
      subst
        (λ (z : (ExecutionError ⊎ String) × Executor F). SendsOne "buy" symbol x.placed z.1.placed)
        (ap (result_of (r, y)) b)
        (checked_sends to_int broker symbol price amount c.0 (record x { risk = c.1 }))

  -- A purchase of less than one lot.
  checked_small :
      (to_int : F → ℤ) (broker : Broker F) (symbol : String) (price amount : F)
      (o : Option RiskError) (x : Executor F)
      → calculate_quantity to_int (buy_request to_int symbol price amount) ≡ pos 0
      → (after_check to_int broker (buy_request to_int symbol price amount) o x).1.placed ≡ x.placed
  unfolding place_buy
  checked_small to_int broker symbol price amount none x q = rw q refl
  checked_small to_int broker symbol price amount (some e) x q = refl

  pub execute_buy_small :
      (to_int : F → ℤ) (broker : Broker F) (answers : Answers F) (symbol : String)
      (price amount : F) (x y : Executor F) (r : ExecutionError ⊎ String)
      → calculate_quantity to_int (buy_request to_int symbol price amount) ≡ pos 0
      → execute_buy to_int broker answers symbol price amount x ≡ done (r, y)
      → y.placed ≡ x.placed
  unfolding execute_buy
  execute_buy_small to_int broker answers symbol price amount x y r q h =
      let order = buy_request to_int symbol price amount in
      let (c, a, b) = and_then-eq-done (check_before_order answers order x.risk) _ h in
      sym (ap (λ (z : (ExecutionError ⊎ String) × Executor F). z.1.placed) (done-injective _ b))
      ∙ checked_small to_int broker symbol price amount c.0 (record x { risk = c.1 }) q

  sell_from_sends :
      (broker : Broker F) (symbol : String) (price : F) (quantity : ℤ)
      (o : Option (PositionState F)) (x : Executor F)
      → SendsOne "sell" symbol x.placed (sell_from broker symbol price quantity o x).1.placed
  unfolding sell_from
  sell_from_sends broker symbol price quantity none x = inl refl
  sell_from_sends broker symbol price quantity (some p) x =
      elim (Bool-cases (ltb_ℤ p.available quantity)) [
        | inl n ↦ rw n (inl refl)
        | inr n ↦ rw n (inr (_, refl, refl, refl))
      ]

  pub execute_sell_sends :
      (broker : Broker F) (symbol : String) (price : F) (quantity : ℤ) (x y : Executor F)
      (r : ExecutionError ⊎ String)
      → execute_sell broker symbol price quantity x ≡ done (r, y)
      → SendsOne "sell" symbol x.placed y.placed
  unfolding execute_sell result_of
  execute_sell_sends broker symbol price quantity x y r h =
      let (c, a, b) = and_then-eq-done (get_position symbol x.positions) _ h in
      subst
        (λ (z : (ExecutionError ⊎ String) × Executor F). SendsOne "sell" symbol x.placed z.1.placed)
        (ap (result_of (r, y)) b)
        (sell_from_sends broker symbol price quantity c.0 (record x { positions = c.1 }))
