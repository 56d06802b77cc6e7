-- ===== src/Execution/Iceberg.antt =====
-- The loop of `executeIceberg` of trading/order/execution.go, by its steps.
pub mod Completing
pub mod Unpriced
use native.Mathlib.Nat.{suc-mul}
use expert_octo_enigma.Prelude.{
  ℕ, zero, suc, ◌+◌, ◌-◌, ◌*◌, ◌≤◌, ◌<◌, String, ◌≡◌, ◌≢◌, refl, ◌∙◌, ap, sym, ◌⊎◌, inl, inr, Bool,
  true, false, Option, some, List, [], ◌∷◌, ◌++◌, map, arith, length, All, if◌then◌else◌,
  Bool-cases, eq_iff, length-append, append-cons, append-nil, ltb, leb, ◌==◌,
}
use expert_octo_enigma.Prelude.Int.{negsuc}
use expert_octo_enigma.Float.{Float, nought}
use expert_octo_enigma.Float.Exact.{IsExact, of_ℕ, exact_limit}
use expert_octo_enigma.Orders.{Order, Manager, Ready, room, submitted, failed, generate_order_id}
use expert_octo_enigma.Orders.Validation.{IsWellFormed}
use expert_octo_enigma.Execution.{
  Config, Slice, Engine, Round, Ending, finished, running, slices_of, store_parent, place, child,
  iceberg_quantity, iceberg_order, left_after, iceberg_round, iceberg_loop, least_size,
  execute_iceberg, slice_of,
}
use expert_octo_enigma.Orders.Submission.{HasRoom}
use expert_octo_enigma.Execution.Placing.{
  outline, place-outline, length-place, place_accepts, place_refuses, place-HasRoom,
}

module _ {F : Type 0} ⦃f : Float F⦄ (decimal : ℕ → String) where
  pub execute_iceberg_loop :
      (rounds : ℕ → Round F) (fuel p : ℕ) (o : Order F) (c : Config F) (e : Engine F) (least : F)
      → least_size decimal c ≡ least
      → f.lt o.quantity least ≡ false
      → execute_iceberg decimal rounds fuel p o c e
        ≡ iceberg_loop decimal rounds o least fuel 0 o.quantity (store_parent o e)
  unfolding execute_iceberg
  execute_iceberg_loop rounds fuel p o c e least g h = rw (g, h) refl

  pub iceberg_loop_step :
      (rounds : ℕ → Round F) (o : Order F) (least remaining : F) (fuel i : ℕ) (e : Engine F)
      → f.lt nought remaining ≡ true
      → (rounds i).cancelled ≡ false
      → let (rest, e') = iceberg_round decimal o least remaining (rounds i) i e in
        iceberg_loop decimal rounds o least (suc fuel) i remaining e
        ≡ iceberg_loop decimal rounds o least fuel (i + 1) rest e'
  unfolding iceberg_loop
  iceberg_loop_step rounds o least remaining fuel i e g c = ground (arith, g, c)
