-- ===== src/Executor/Buying.antt =====
-- What `ExecuteBuy` of trading/order_executor.go sends to the broker.
use expert_octo_enigma.Prelude.{
  String, ◌≡◌, refl, inl, inr, true, Option, none, some, [], ◌∷◌, ◌++◌, arith, ap, sym, ◌∙◌,
  Bool-cases, Option-cases,
}
use expert_octo_enigma.Prelude.Int.{ℤ, pos, ltb_ℤ}
use expert_octo_enigma.Float.{Float}
use expert_octo_enigma.Lock.{Guarded, done, free, and_then-eq-done}
use expert_octo_enigma.RiskManager.{
  RiskManager, RiskError, Answers, OrderRequest, check_before_order,
}
use expert_octo_enigma.RiskManager.Approval.{
  Approved, check_before_order_iff, check_before_order_keeps,
}
use expert_octo_enigma.Executor.{
  Executor, Broker, execute_buy, place_buy, after_check, buy_request, calculate_quantity,
}

module _ {F : Type 0} ⦃f : Float F⦄ where
  placed_lem :
      (to_int : F → ℤ) (broker : Broker F) (order : OrderRequest F) (id : String) (x y : Executor F)
      → place_buy to_int broker order x ≡ (inr id, y)
      → let quantity = calculate_quantity to_int order in
        (ltb_ℤ (pos 0) quantity ≡ true)
        × (broker.buy order.symbol order.price quantity ≡ some id)
        × (y ≡ record x {
          placed =
              x.placed
              ++ record {
                type = "buy";
                symbol = order.symbol;
                price = order.price;
                quantity = quantity;
              }
                ∷ [];
        })
  unfolding place_buy
  placed_lem to_int broker order id x y e =
      let quantity = calculate_quantity to_int order in
      elim (Bool-cases (ltb_ℤ (pos 0) quantity)) [
        | inr b ↦ absurd (ground (arith, b, e))
        | inl b ↦ elim (Option-cases (broker.buy order.symbol order.price quantity)) [
          | inl s ↦ absurd (ground (arith, b, s, e))
          | inr (j, s) ↦ (b, ground (arith, b, s, e), ground (arith, b, s, e))
        ]
      ]

  checked :
      (to_int : F → ℤ) (broker : Broker F) (order : OrderRequest F) (o : Option RiskError)
      (k : Guarded (RiskManager F)) (id : String) (x y : Executor F)
      → k ≡ x.risk
      → done (after_check to_int broker order o (record x { risk = k })) ≡ done (inr id, y)
      → (o ≡ none) × (place_buy to_int broker order x ≡ (inr id, y))
  checked to_int broker order none k id x y g e = (
    refl,
    ap (λ z. place_buy to_int broker order (record x { risk = z })) (sym g) ∙ ground (arith, e),
  )
  checked to_int broker order (some er) k id x y g e = absurd (ground (arith, e))

  -- With the risk manager's lock free, an `ExecuteBuy` that returns an identifier has sent exactly one
  -- order to the broker, a purchase of the symbol at the price, of a quantity above nothing, to which the
  -- broker gave that identifier; the order met every condition of `CheckBeforeOrder`, and nothing else of
  -- the executor has changed.
  pub execute_buy-Approved :
      (to_int : F → ℤ) (broker : Broker F) (answers : Answers F) (symbol id : String)
      (price amount : F) (m : RiskManager F) (x y : Executor F)
      → x.risk ≡ record { mu = free; inner = m }
      → execute_buy to_int broker answers symbol price amount x ≡ done (inr id, y)
      → let order = buy_request to_int symbol price amount in
        let quantity = calculate_quantity to_int order in
        Approved answers order m
        × (ltb_ℤ (pos 0) quantity ≡ true)
        × (broker.buy symbol price quantity ≡ some id)
        × (y ≡ record x {
          placed =
              x.placed
              ++ record { type = "buy"; symbol = symbol; price = price; quantity = quantity } ∷ [];
        })
  unfolding execute_buy place_buy
  execute_buy-Approved to_int broker answers symbol id price amount m x y g e =
      let order = buy_request to_int symbol price amount in
      let (r, c, d) = and_then-eq-done (check_before_order answers order x.risk) _ e in
      let keeps : r.1 ≡ record { mu = free; inner = m } =
        check_before_order_keeps answers order m r
          (ap (check_before_order answers order) (sym g) ∙ c) in
      let (n, p) = checked to_int broker order r.0 r.1 id x y (keeps ∙ sym g) d in
      let (q, b, z) = placed_lem to_int broker order id x y p in
      (
        (check_before_order_iff answers order m).0
            (ap (check_before_order answers order) (sym g) ∙ c ∙ ground (arith, n, keeps)),
        q,
        b,
        z,
      )
