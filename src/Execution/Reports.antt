-- ===== src/Execution/Reports.antt =====
-- What trading/order/execution.go says of an execution: its slices, its average price, its completion
-- rate and the estimated time.
use mathlib.Core.Option
use expert_octo_enigma.Prelude.{
  String, ◌||◌, Option, none, some, List, [], ◌∷◌, str_eq, if◌then◌else◌,
}
use expert_octo_enigma.Prelude.Int.{ℤ, pos, ltb_ℤ, ◌*ℤ◌}
use expert_octo_enigma.Table.{lookup}
use expert_octo_enigma.Float.{Float, nought}
use expert_octo_enigma.Orders.{Order, filled}
use expert_octo_enigma.Execution.{Config, Slice, Engine, slices_of}

unfoldable pub get_execution_status : {F : Type 0} → String → Engine F → Option (List (Slice F))
get_execution_status id e = lookup id e.slices

module _ {F : Type 0} ⦃f : Float F⦄ where
  -- The value and the quantity of the slices that are filled.
  unfoldable pub filled_totals : List (Slice F) → F → F → F × F
  filled_totals [] value quantity = (value, quantity)
  filled_totals (s ∷ rest) value quantity =
      let more = filled_totals rest in
      if str_eq s.status filled
      then more (f.add value (f.mul s.price s.quantity)) (f.add quantity s.quantity)
      else more value quantity

  -- The average price, unless nothing is filled.
  unfoldable pub average_of : Option (List (Slice F)) → Option F
  average_of none = none
  average_of (some slices) =
      let (value, quantity) = filled_totals slices nought nought in
      if f.eq quantity nought then none else some (f.div value quantity)

  unfoldable pub calculate_execution_price : String → Engine F → Option F
  unfolding average_of get_execution_status filled_totals
  calculate_execution_price id e = average_of (get_execution_status id e)

  unfoldable pub completion_of : String → Engine F → Order F → F
  completion_of id e o = f.div (filled_totals (slices_of id e) nought nought).1 o.quantity

  unfoldable pub calculate_completion_rate : String → Engine F → Option F
  unfolding completion_of filled_totals
  calculate_completion_rate id e = Option.map (completion_of id e) (lookup id e.orders)

  -- In nanoseconds; `ceil x` is `int(math.Ceil(x))`.
  pub estimate_execution_time : (F → ℤ) → Order F → Config F → ℤ
  estimate_execution_time ceil o c =
      if str_eq c.type "market"
      then pos 1_000_000_000
      else if str_eq c.type "twap" || str_eq c.type "vwap"
      then if ltb_ℤ (pos 0) c.duration then c.duration else pos 600_000_000_000
      else if str_eq c.type "iceberg"
      then ceil (f.div o.quantity c.min_slice_size) *ℤ pos 1_000_000_000
      else if str_eq c.type "pov"
      then pos 1_800_000_000_000
      else pos 60_000_000_000
