-- ===== src/Execution.antt =====
-- trading/order/execution.go: the algorithms that execute an order in slices (TWAP, VWAP, iceberg,
-- POV), over the order manager. An execution is sequential but for what happens while it waits:
-- round `i` of a loop has the readings, the answers and the interference of `rounds i`. Nothing else
-- writes to the order or to its slices meanwhile. The loops of the last two algorithms need not end:
-- they run on fuel, and `running` is where the fuel ran out.
mod Data
pub mod Reports
pub mod Placing
pub mod Iceberg
pub mod Statuses
pub mod Filled
pub mod Pov
pub mod Evenly
mod Tests
pub use Data.*
use expert_octo_enigma.Prelude.{
  ℕ, zero, suc, ◌+◌, String, Bool, true, false, ◌||◌, Option, none, some, List, [], ◌∷◌, ◌++◌,
  str_eq, if◌then◌else◌, length,
}
use expert_octo_enigma.Prelude.Int.{ℤ, pos, negsuc, pos_part}
use expert_octo_enigma.Float.{Float, nought}
use expert_octo_enigma.Orders.{
  Order, SubmitResult, pending, submitted, failed, write, generate_order_id, submit_order,
}
use expert_octo_enigma.Routing.{Liquidity, best_price, available, part_quantity}

module _ {F : Type 0} ⦃f : Float F⦄ (decimal : ℕ → String) where
  pub submit : ℕ → Round F → Engine F → SubmitResult × Engine F
  submit p r e =
      let (res, m) = submit_order decimal r.ready r.wait r.nanos r.now r.now p e.manager in
      (res, record e { manager = m })

  -- The order of a slice, a copy with an ID of its own.
  pub child : Order F → F → Round F → Order F
  child o quantity r = record o {
    id = generate_order_id decimal r.nanos;
    parent_order_id = o.id;
    quantity = quantity;
  }

  abbrev slice_of : Order F → Order F → ℕ → ℤ → F → Round F → Slice F
  slice_of o c index total price r = record {
    order_id = o.id;
    slice_index = index;
    total_slices = total;
    quantity = c.quantity;
    price = price;
    status = pending;
    execute_time = r.now;
  }

  -- A slice is recorded, its order is submitted, and the execution sleeps.
  pub place : Slice F → Order F → Round F → Engine F → Bool × Engine F
  unfolding submit
  place s c r e =
      let e1 =
        record_slice s
          (record e { manager = record (e.manager) { heap = write e.manager.heap r.pointer c } }) in
      let (res, e2) = submit r.pointer r e1 in
      let e3 = mark_slice s.order_id (if is_queued res then submitted else failed) e2 in
      (is_queued res, record e3 { manager = r.meanwhile e3.manager })

  pub execute_market : ℕ → Round F → Engine F → Ending × Engine F
  unfolding submit
  execute_market p r e =
      let (res, e') = submit p r e in (if is_queued res then finished else refused res, e')

  pub twap_round : Order F → ℤ → Round F → ℕ → Engine F → Engine F
  twap_round o n r i e =
      let share = f.div o.quantity (f.of_int n) in
      let c = child o (part_quantity o.quantity n share i) r in
      (place (slice_of o c i n nought r) c r e).1

  -- The price of a limit order follows the market.
  repriced : Order F → Round F → Engine F → Order F → Order F
  repriced o r e c = elim (get_liquidity e r.quote) [
    | none ↦ c
    | some l ↦ if str_eq o.type "limit" then record c { price = best_price o l } else c
  ]

  pub vwap_round : Order F → ℤ → Round F → ℕ → Engine F → Engine F
  unfolding repriced
  vwap_round o n r i e =
      let share = f.div o.quantity (f.of_int n) in
      let c = repriced o r e (child o (part_quantity o.quantity n share i) r) in
      (place (slice_of o c i n c.price r) c r e).1

  -- The loop of TWAP and VWAP, with the number of rounds left and the index.
  pub slice_loop :
      (Round F → ℕ → Engine F → Engine F) → (ℕ → Round F) → ℕ → ℕ → Engine F → Ending × Engine F
  slice_loop body rounds zero i e = (finished, e)
  slice_loop body rounds (suc left) i e = elim (rounds i).cancelled [
    | true ↦ (context_ended, e)
    | false ↦ slice_loop body rounds left (i + 1) (body (rounds i) i e)
  ]

  pub execute_twap : (ℕ → Round F) → Order F → Config F → Engine F → Ending × Engine F
  execute_twap rounds o c e =
      let n = count_or 10 c.slice_count in
      slice_loop (twap_round o n) rounds (pos_part n) 0 (store_parent o e)

  -- `first` is the market's answer before the loop; without it the order goes out as it is.
  pub execute_vwap :
      Option (Liquidity F) → (ℕ → Round F) → ℕ → Order F → Config F → Engine F → Ending × Engine F
  execute_vwap first rounds p o c e = elim (get_liquidity e first) [
    | none ↦ execute_market p (rounds 0) e
    | some l ↦
        let n = count_or 10 c.slice_count in
        slice_loop (vwap_round o n) rounds (pos_part n) 0 (store_parent o e)
  ]

  -- A slice of the least size, or of all that is left when that is less than two of them.
  iceberg_quantity : F → F → F
  iceberg_quantity least remaining =
      if f.lt remaining (f.mul least (f.lit 2 0)) then remaining else least

  iceberg_order : Order F → F → Round F → Order F
  iceberg_order o quantity r = record (child o quantity r) { type = "limit" }

  -- The quantity that is left counts only what was accepted.
  pub left_after : F → F → Bool × Engine F → F × Engine F
  left_after remaining quantity (ok, e) = (if ok then f.sub remaining quantity else remaining, e)

  pub iceberg_round : Order F → F → F → Round F → ℕ → Engine F → F × Engine F
  unfolding iceberg_order iceberg_quantity left_after
  iceberg_round o least remaining r i e =
      let quantity = iceberg_quantity least remaining in
      let c = iceberg_order o quantity r in
      left_after remaining quantity (place (slice_of o c i (negsuc 0) c.price r) c r e)

  pub iceberg_loop : (ℕ → Round F) → Order F → F → ℕ → ℕ → F → Engine F → Ending × Engine F
  iceberg_loop rounds o least zero i remaining e = (running, e)
  iceberg_loop rounds o least (suc fuel) i remaining e = elim (f.lt nought remaining) [
    | false ↦ (finished, e)
    | true ↦ elim (rounds i).cancelled [
      | true ↦ (context_ended, e)
      | false ↦
          let (remaining', e') = iceberg_round o least remaining (rounds i) i e in
          iceberg_loop rounds o least fuel (i + 1) remaining' e'
    ]
  ]

  abbrev least_size : Config F → F
  least_size c = if f.eq c.min_slice_size nought then f.lit 100 0 else c.min_slice_size

  pub execute_iceberg : (ℕ → Round F) → ℕ → ℕ → Order F → Config F → Engine F → Ending × Engine F
  execute_iceberg rounds fuel p o c e =
      if f.lt o.quantity (least_size c)
      then execute_market p (rounds 0) e
      else iceberg_loop rounds o (least_size c) fuel 0 o.quantity (store_parent o e)

  -- A participation outside (0, 1] is a tenth.
  abbrev participation_of : Config F → F
  participation_of c =
      if f.le c.participation nought || f.lt (f.lit 1 0) c.participation
      then f.lit 1 1
      else c.participation

  abbrev smaller : F → F → F
  smaller quantity remaining = if f.lt remaining quantity then remaining else quantity

  abbrev sleep : Round F → Engine F → Engine F
  sleep r e = record e { manager = r.meanwhile e.manager }

  -- The quantity follows the first quote, the price the second.
  pub pov_step : F → Order F → F → Round F → Engine F → PovStep F
  pov_step participation o remaining r e = elim (get_liquidity e r.quote) [
    | none ↦ waits
    | some l ↦
        let quantity = smaller (f.mul (available o l) participation) remaining in
        elim (f.lt quantity (f.lit 100 0)) [
          | true ↦ waits
          | false ↦ elim (get_liquidity e r.next_quote) [
            | none ↦ nil_quote
            | some next ↦ places quantity (best_price o next)
          ]
        ]
  ]

  pub pov_place : Order F → F → F → F → Round F → Engine F → F × Engine F
  unfolding left_after
  pov_place o quantity price remaining r e =
      let c = record (child o quantity r) { price = price } in
      left_after remaining quantity
        (place (slice_of o c (length (slices_of o.id e)) (negsuc 0) price r) c r e)

  -- The quantity left and the engine after a round, unless the program ends.
  pub pov_act : Order F → F → Round F → Engine F → PovStep F → Option (F × Engine F)
  unfolding pov_place
  pov_act o remaining r e waits = some (remaining, sleep r e)
  pov_act o remaining r e nil_quote = none
  pov_act o remaining r e (places quantity price) = some (pov_place o quantity price remaining r e)

  pub pov_round : F → Order F → F → Round F → Engine F → Option (F × Engine F)
  unfolding pov_step pov_act
  pov_round participation o remaining r e =
      pov_act o remaining r e (pov_step participation o remaining r e)

  pub pov_loop : (ℕ → Round F) → Order F → F → ℕ → ℕ → F → Engine F → Ending × Engine F
  pov_loop rounds o participation zero i remaining e = (running, e)
  pov_loop rounds o participation (suc fuel) i remaining e = elim (f.lt nought remaining) [
    | false ↦ (finished, e)
    | true ↦ elim (rounds i).cancelled [
      | true ↦ (context_ended, e)
      | false ↦ elim (pov_round participation o remaining (rounds i) e) [
        | none ↦ (crashed, e)
        | some (remaining', e') ↦ pov_loop rounds o participation fuel (i + 1) remaining' e'
      ]
    ]
  ]

  pub execute_pov : (ℕ → Round F) → ℕ → Order F → Config F → Engine F → Ending × Engine F
  execute_pov rounds fuel o c e =
      pov_loop rounds o (participation_of c) fuel 0 o.quantity (store_parent o e)

  -- The `switch` over the algorithm; the order stands at `p`.
  pub execute_with_algorithm :
      Option (Liquidity F) → (ℕ → Round F) → ℕ → ℕ → Config F → Engine F → Ending × Engine F
  execute_with_algorithm first rounds fuel p c e =
      let o = e.manager.heap p in
      if str_eq c.type "market"
      then execute_market p (rounds 0) e
      else if str_eq c.type "twap"
      then execute_twap rounds o c e
      else if str_eq c.type "vwap"
      then execute_vwap first rounds p o c e
      else if str_eq c.type "iceberg"
      then execute_iceberg rounds fuel p o c e
      else if str_eq c.type "pov"
      then execute_pov rounds fuel o c e
      else (unsupported, e)
