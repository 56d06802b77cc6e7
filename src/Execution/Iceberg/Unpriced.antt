-- ===== src/Execution/Iceberg/Unpriced.antt =====
-- `executeIceberg` of trading/order/execution.go on an order without a price.
use expert_octo_enigma.Prelude.{
  ℕ, zero, suc, ◌+◌, String, ◌≡◌, refl, ◌∙◌, ap, true, false, arith, length, eq_iff,
}
use expert_octo_enigma.Prelude.Int.{negsuc}
use expert_octo_enigma.Float.{Float, nought}
use expert_octo_enigma.Orders.{Order}
use expert_octo_enigma.Orders.Validation.{IsWellFormed}
use expert_octo_enigma.Execution.{
  Config, Engine, Round, running, slices_of, store_parent, child, iceberg_quantity, iceberg_order,
  left_after, iceberg_round, iceberg_loop, least_size, execute_iceberg, slice_of,
}
use expert_octo_enigma.Execution.Placing.{length-place, place_refuses}
use expert_octo_enigma.Execution.Iceberg.{execute_iceberg_loop, iceberg_loop_step}

module _ {F : Type 0} ⦃f : Float F⦄ (decimal : ℕ → String) where
  -- A slice of an order without a price is a limit order without a price.
  unpriced :
      (o : Order F) (quantity : F) (r : Round F)
      → f.le o.price nought ≡ true
      → ¬ IsWellFormed (iceberg_order decimal o quantity r)
  unfolding iceberg_order child
  unpriced o quantity r h w = ground (
    arith,
    h,
    w.is_priced,
    eq_iff "limit" "market",
    eq_iff "limit" "stop",
    eq_iff "limit" "stop_limit",
  )

  unpriced_round :
      (o : Order F) (least remaining : F) (r : Round F) (i : ℕ) (e : Engine F)
      → f.le o.price nought ≡ true
      → let (rest, e') = iceberg_round decimal o least remaining r i e in
        (rest ≡ remaining) × (length (slices_of o.id e') ≡ length (slices_of o.id e) + 1)
  unfolding iceberg_round left_after iceberg_order child
  unpriced_round o least remaining r i e h =
      let c = iceberg_order decimal o (iceberg_quantity decimal least remaining) r in
      let s = slice_of decimal o c i (negsuc 0) c.price r in
      let no =
        place_refuses decimal s c r e (unpriced o (iceberg_quantity decimal least remaining) r h) in
      (rw no refl, length-place decimal s c r e)

  unpriced_loop :
      (rounds : ℕ → Round F) (o : Order F) (least : F) (fuel i : ℕ) (e : Engine F)
      → ((j : ℕ) → (rounds j).cancelled ≡ false)
      → f.le o.price nought ≡ true
      → f.lt nought o.quantity ≡ true
      → let (ending, e') = iceberg_loop decimal rounds o least fuel i o.quantity e in
        (ending ≡ running) × (length (slices_of o.id e') ≡ length (slices_of o.id e) + fuel)
  unfolding iceberg_loop
  unpriced_loop rounds o least zero i e alive h g = (refl, omega arith)
  unpriced_loop rounds o least (suc fuel) i e alive h g =
      let (rest, e1) = iceberg_round decimal o least o.quantity (rounds i) i e in
      let (a, len) = unpriced_round o least o.quantity (rounds i) i e h in
      let (b, c) = unpriced_loop rounds o least fuel (i + 1) e1 alive h g in
      let step : iceberg_loop decimal rounds o least (suc fuel) i o.quantity e
          ≡ iceberg_loop decimal rounds o least fuel (i + 1) o.quantity e1 =
        iceberg_loop_step decimal rounds o least o.quantity fuel i e g (alive i)
        ∙ ap (λ x. iceberg_loop decimal rounds o least fuel (i + 1) x e1) a in
      rw step (b, omega (arith, c, len))

  -- An order without a price (a market order has none) of a positive quantity not below the least
  -- size is never executed by the iceberg algorithm: while the context lasts, whatever the order
  -- manager does, the loop is still running after every number of rounds, and each of them has added
  -- a slice.
  pub iceberg_never_ends :
      (rounds : ℕ → Round F) (fuel p : ℕ) (o : Order F) (c : Config F) (e : Engine F)
      → ((j : ℕ) → (rounds j).cancelled ≡ false)
      → f.le o.price nought ≡ true
      → f.lt nought o.quantity ≡ true
      → f.lt o.quantity (least_size decimal c) ≡ false
      → let (ending, e') = execute_iceberg decimal rounds fuel p o c e in
        (ending ≡ running) × (length (slices_of o.id e') ≡ length (slices_of o.id e) + fuel)
  iceberg_never_ends rounds fuel p o c e alive h g q =
      rw (execute_iceberg_loop decimal rounds fuel p o c e (least_size decimal c) refl q)
        (unpriced_loop rounds o (least_size decimal c) fuel 0 (store_parent o e) alive h g)
