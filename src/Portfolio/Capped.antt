-- ===== src/Portfolio/Capped.antt =====
-- The orders of Rebalance in trading/portfolio/portfolio_manager.go.
use expert_octo_enigma.Prelude.{
  ℕ, String, ◌≡◌, refl, sym, subst, true, false, Option, none, some, List, [], ◌∷◌, ◌⊎◌, inl, inr,
  Bool-cases, Option-cases,
}
use expert_octo_enigma.Table.{Table, lookup}
use expert_octo_enigma.Float.{Float, nought}
use expert_octo_enigma.Portfolio.{PortfolioPosition, PortfolioManager, RebalanceOrder, magnitude}
use expert_octo_enigma.Portfolio.Rebalancing.{
  WeightError, validate_weights, order_for, adjustment, purchase, capped, generate_rebalance_orders,
  rebalance, rebalance_checked, calculate_target_positions,
}

module _ {F : Type 0} ⦃f : Float F⦄ where
  -- The order's value is the amount, or, where the amount's share of the total value exceeds the
  -- turnover limit, that share of the total value.
  abbrev pub IsCapped : PortfolioManager F → F → F → Type 0
  IsCapped p amount value =
      let share = f.div amount p.performance.total_value in
      ((f.lt p.config.max_turnover share ≡ false) × (value ≡ amount))
      ⊎ ((f.lt p.config.max_turnover share ≡ true)
          × (value ≡ f.mul p.performance.total_value p.config.max_turnover))

  -- An order for a position of the portfolio: a difference of 100 or more, a sale of what the position
  -- has too much or a purchase of what it has too little, under the turnover limit. An order for
  -- another symbol: a purchase of the whole target.
  abbrev pub IsSoundFor :
      PortfolioManager F → RebalanceOrder F → Option (PortfolioPosition F) → Type 0
  IsSoundFor p o none =
      (o.action ≡ "buy") × (o.current_value ≡ nought) × (o.order_value ≡ o.target_value)
  IsSoundFor p o (some q) =
      let missing = f.sub o.target_value q.market_value in
      (f.lt (magnitude (f.sub q.market_value o.target_value)) (f.lit 100 0) ≡ false)
      × (o.current_value ≡ q.market_value)
      × (((f.lt missing nought ≡ true)
            × (o.action ≡ "sell")
            × IsCapped p (f.neg missing) o.order_value)
          ⊎ ((f.lt missing nought ≡ false) × (o.action ≡ "buy") × IsCapped p missing o.order_value))

  abbrev pub IsSound : PortfolioManager F → RebalanceOrder F → Type 0
  IsSound p o = IsSoundFor p o (lookup o.symbol p.positions)

  -- The orders for target values: none for a position whose value differs by less than 100, and else
  -- one for each symbol, in order.
  pub data Answers (p : PortfolioManager F) : Table F → List (RebalanceOrder F) → Type 0 where
    nothing : Answers p [] []
    small :
        {symbol : String} {target : F} {targets : Table F} {orders : List (RebalanceOrder F)}
        (q : PortfolioPosition F)
        → lookup symbol p.positions ≡ some q
        → f.lt (magnitude (f.sub q.market_value target)) (f.lit 100 0) ≡ true
        → Answers p targets orders
        → Answers p ((symbol, target) ∷ targets) orders
    ordered :
        {targets : Table F} {orders : List (RebalanceOrder F)} (o : RebalanceOrder F)
        → IsSound p o
        → Answers p targets orders
        → Answers p ((o.symbol, o.target_value) ∷ targets) (o ∷ orders)

  capped-IsCapped :
      (p : PortfolioManager F) (amount : F)
      → IsCapped p amount (capped p.performance.total_value p.config.max_turnover amount)
  capped-IsCapped p amount =
      elim (Bool-cases (f.lt p.config.max_turnover (f.div amount p.performance.total_value))) [
        | inl b ↦ inr (b, rw b refl)
        | inr b ↦ inl (b, rw b refl)
      ]

  adjustment-IsSound :
      (symbol : String) (target : F) (q : PortfolioPosition F) (p : PortfolioManager F)
      → f.lt (magnitude (f.sub q.market_value target)) (f.lit 100 0) ≡ false
      → IsSoundFor p (adjustment symbol target q.market_value p) (some q)
  unfolding adjustment
  adjustment-IsSound symbol target q p big =
      let missing = f.sub target q.market_value in
      elim (Bool-cases (f.lt missing nought)) [
        | inl b ↦ (big, refl, inl (b, rw b refl, rw b (capped-IsCapped p (f.neg missing))))
        | inr b ↦ (big, refl, inr (b, rw b refl, rw b (capped-IsCapped p missing)))
      ]

  order_for-Answers :
      (symbol : String) (target : F) (targets : Table F) (o : Option (PortfolioPosition F))
      (p : PortfolioManager F) (more : List (RebalanceOrder F))
      → lookup symbol p.positions ≡ o
      → Answers p targets more
      → Answers p ((symbol, target) ∷ targets) (order_for symbol target o p more)
  unfolding order_for purchase adjustment
  order_for-Answers symbol target targets none p more e h =
      ordered (purchase symbol target)
        (subst (IsSoundFor p (purchase symbol target)) (sym e) (refl, refl, refl)) h
  order_for-Answers symbol target targets (some q) p more e h =
      elim (Bool-cases (f.lt (magnitude (f.sub q.market_value target)) (f.lit 100 0))) [
        | inl b ↦ rw b (small q e b h)
        | inr b ↦ rw b (
            ordered (adjustment symbol target q.market_value p)
              (subst (IsSoundFor p (adjustment symbol target q.market_value p)) (sym e)
                (adjustment-IsSound symbol target q p b))
              h)
      ]

  orders-Answers :
      (targets : Table F) (p : PortfolioManager F)
      → Answers p targets (generate_rebalance_orders targets p)
  unfolding generate_rebalance_orders
  orders-Answers [] p = nothing
  orders-Answers ((symbol, target) ∷ rest) p =
      order_for-Answers symbol target rest (lookup symbol p.positions) p
        (generate_rebalance_orders rest p) refl (orders-Answers rest p)

  -- A rebalance to weights that are refused makes no order and changes nothing. Else it stores the
  -- weights and the time, and answers the target values one by one: with no order where the portfolio
  -- holds the symbol and its value differs from the target by less than 100; with a sale where it holds
  -- the symbol and the target less its value is below 0, and else with a purchase, of the difference where its share of
  -- the total value does not exceed the turnover limit, and else of the limit's share of the total
  -- value; and where it does not hold the symbol, with a purchase of the whole target, whatever the
  -- limit.
  pub rebalance-Answers :
      (weights : Table F) (now : ℕ) (p : PortfolioManager F)
      → let (r, p') = rebalance weights now p in
        let q = record p { strategy_weights = weights } in
        ((r.0 ≡ none)
          × Answers q (calculate_target_positions weights q) r.1
          × (p' ≡ record q { last_rebalance = now }))
        ⊎ ((e : WeightError) × (r ≡ (some e, [])) × (p' ≡ p))
  unfolding rebalance rebalance_checked
  rebalance-Answers weights now p =
      let q = record p { strategy_weights = weights } in
      elim (Option-cases (validate_weights weights)) [
        | inl v ↦ inl (rw v (refl, orders-Answers (calculate_target_positions weights q) q, refl))
        | inr (e, v) ↦ inr (e, rw v refl, rw v refl)
      ]
