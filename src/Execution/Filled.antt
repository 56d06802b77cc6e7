-- ===== src/Execution/Filled.antt =====
-- What the reports of trading/order/execution.go say, whatever has been executed.
use expert_octo_enigma.Prelude.{
  ℕ, String, ◌≡◌, refl, Bool, true, false, Option, none, List, [], ◌∷◌, arith,
}
use mathlib.Core.Option
use expert_octo_enigma.Table.{lookup}
use expert_octo_enigma.Float.{Float, nought}
use expert_octo_enigma.Orders.{Manager}
use expert_octo_enigma.Routing.{Liquidity}
use expert_octo_enigma.Execution.{
  Config, Slice, Engine, Round, new_execution_engine, slices_of, execute_with_algorithm,
}
use expert_octo_enigma.Execution.Reports.{
  filled_totals, average_of, completion_of, calculate_execution_price, calculate_completion_rate,
  get_execution_status,
}
use expert_octo_enigma.Execution.Statuses.{shows_filled, Clean, execution-Clean}

-- An execution, with what the rest of the program does to the order manager before it.
pub record Execution (F : Type 0) : Type 0 where
  pub before : Manager F → Manager F
  pub first : Option (Liquidity F)
  pub rounds : ℕ → Round F
  pub fuel : ℕ
  pub pointer : ℕ
  pub config : Config F

module _ {F : Type 0} ⦃f : Float F⦄ (decimal : ℕ → String) where
  pub run : List (Execution F) → Engine F → Engine F
  run [] e = e
  run (x ∷ xs) e =
      run xs
        (execute_with_algorithm decimal x.first x.rounds x.fuel x.pointer x.config
          (record e { manager = x.before e.manager })).1

  run-Clean :
      (id : String) (xs : List (Execution F)) (e : Engine F)
      → Clean decimal id e
      → Clean decimal id (run xs e)
  unfolding run Clean
  run-Clean id [] e u = u
  run-Clean id (x ∷ xs) e u = run-Clean id xs _ (
      execution-Clean decimal id x.first x.rounds x.fuel x.pointer x.config
        (record e { manager = x.before e.manager }) u)

  filled_totals-nothing :
      (slices : List (Slice F)) (value quantity : F)
      → shows_filled slices ≡ false
      → filled_totals slices value quantity ≡ (value, quantity)
  unfolding filled_totals
  filled_totals-nothing [] value quantity u = refl
  filled_totals-nothing (s ∷ rest) value quantity u =
      ground (arith, u, filled_totals-nothing rest value quantity)

  -- After every sequence of executions, by every algorithm and however the submissions end, the
  -- average price of every order is an error, and the completion rate of every order on record is 0
  -- over its quantity. It is assumed that 0 equals 0.
  pub nothing_filled :
      (m : Manager F) (has_market_data : Bool) (xs : List (Execution F)) (id : String)
      → f.eq nought nought ≡ true
      → let e = run xs (new_execution_engine m has_market_data) in
        (calculate_execution_price id e ≡ none)
        × (calculate_completion_rate id e
            ≡ Option.map (λ o. f.div nought o.quantity) (lookup id e.orders))
  unfolding calculate_execution_price calculate_completion_rate average_of completion_of Clean
      get_execution_status lookup
  nothing_filled m has_market_data xs id z =
      let e = run xs (new_execution_engine m has_market_data) in
      let u = run-Clean id xs (new_execution_engine m has_market_data) refl in
      ground (arith, z, u, filled_totals-nothing (slices_of id e) nought nought u)
