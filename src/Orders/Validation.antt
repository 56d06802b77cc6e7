-- ===== src/Orders/Validation.antt =====
-- `validateOrder` of trading/order/manager.go against a description of a well-formed order.
use expert_octo_enigma.Prelude.{◌≡◌, ◌≢◌, ◌↔◌, ◌⊎◌, false, none, arith, eq_iff}
use expert_octo_enigma.Float.{Float, nought}
use expert_octo_enigma.Orders.{Order, validate_type, validate_order}

module _ {F : Type 0} ⦃f : Float F⦄ where
  -- A market order, a limit order with a price or a stop order with a stop price. A NaN is not
  -- `<= 0`, so it counts as positive.
  abbrev pub IsPriced : Order F → Type 0
  IsPriced o =
      (o.type ≡ "market")
      ⊎ ((o.type ≡ "limit") × (f.le o.price nought ≡ false))
      ⊎ (((o.type ≡ "stop") ⊎ (o.type ≡ "stop_limit")) × (f.le o.stop_price nought ≡ false))

  pub record IsWellFormed (o : Order F) : Type 0 where
    pub has_symbol : o.symbol ≢ ""
    pub has_side : (o.side ≡ "buy") ⊎ (o.side ≡ "sell")
    pub is_positive : f.le o.quantity nought ≡ false
    pub is_priced : IsPriced o

  validate_type_iff : (o : Order F) → (validate_type o ≡ none) ↔ IsPriced o
  unfolding validate_type
  validate_type_iff o = ground (
    arith,
    eq_iff o.type "market",
    eq_iff o.type "limit",
    eq_iff o.type "stop",
    eq_iff o.type "stop_limit",
    eq_iff "market" "limit",
    eq_iff "market" "stop",
    eq_iff "market" "stop_limit",
    eq_iff "limit" "stop",
    eq_iff "limit" "stop_limit",
  )

  -- An order passes the validation exactly when it is well formed.
  pub validate_order_iff : (o : Order F) → (validate_order o ≡ none) ↔ IsWellFormed o
  unfolding validate_order
  validate_order_iff o =
      ground
        (arith, eq_iff o.symbol "", eq_iff o.side "buy", eq_iff o.side "sell", validate_type_iff o)
