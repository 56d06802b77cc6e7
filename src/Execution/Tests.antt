-- ===== src/Execution/Tests.antt =====
-- Runs of trading/order/execution.go and its theorems at concrete inputs. Floats are whole numbers.
use mathlib.Core.Option
use expert_octo_enigma.Prelude.{
  ℕ, ◌+◌, String, ◌≡◌, refl, inl, inr, true, false, none, some, List, [], ◌∷◌, arith, ◌==◌,
  if◌then◌else◌, length, eq_iff,
}
use expert_octo_enigma.Prelude.Int.{pos}
use expert_octo_enigma.Table.{lookup}
use expert_octo_enigma.Float.{nought}
use expert_octo_enigma.Float.Whole.{Whole, whole}
use expert_octo_enigma.Float.Exact.{Whole-IsExact}
use expert_octo_enigma.Orders.{Order, Manager, room, waiting}
use expert_octo_enigma.Orders.Validation.{IsWellFormed}
use expert_octo_enigma.Routing.{Liquidity}
use expert_octo_enigma.Execution.{
  Config, Engine, Round, Ending, finished, running, context_ended, crashed, new_execution_engine,
  slices_of, execute_twap, execute_vwap, execute_iceberg, execute_pov, execute_with_algorithm,
}
use expert_octo_enigma.Execution.Reports.{calculate_execution_price, calculate_completion_rate}
use expert_octo_enigma.Execution.Iceberg.Completing.{
  IsLimitable, IsServed, Sliced, iceberg_completes,
}
use expert_octo_enigma.Execution.Iceberg.Unpriced.{iceberg_never_ends}
use expert_octo_enigma.Execution.Filled.{Execution, run, nothing_filled}

abbrev order_of : ℕ → ℕ → Order Whole
order_of quantity price = record {
  id = "a";
  symbol = "600000";
  side = "buy";
  type = "limit";
  quantity = some quantity;
  price = some price;
  stop_price = some 0;
  status = "";
  filled_quantity = some 0;
  avg_price = some 0;
  create_time = 0;
  update_time = 0;
  submit_time = 0;
  fill_time = 0;
  error_message = "";
  parent_order_id = "";
  child_orders = [];
  metadata = [];
}

abbrev digits : ℕ → String
digits n = if n == 7 then "7" else "8"

abbrev manager : Manager Whole
manager = record {
  heap = λ p. order_of 350 10;
  orders = [];
  queue = [];
  max_pending_orders = 2;
  order_timeout = 30;
  has_risk_manager = false;
  stopped = false;
  worker = waiting;
}

abbrev engine : Engine Whole
engine = new_execution_engine manager true

abbrev quote : Liquidity Whole
quote = record {
  symbol = "600000";
  bid_price = some 9;
  bid_volume = some 1000;
  ask_price = some 11;
  ask_volume = some 1000;
  spread = some 2;
  spread_pct = some 0;
  timestamp = pos 0;
}

-- The worker of the manager empties the queue in each sleep.
abbrev served : ℕ → Round Whole
served i = record {
  cancelled = false;
  quote = some quote;
  next_quote = some quote;
  pointer = i + 1;
  nanos = i;
  now = i;
  ready = room;
  wait = λ m. m;
  meanwhile = λ m. record m { queue = [] };
}

abbrev config : String → ℕ → Config Whole
config type count = record {
  type = type;
  duration = pos 0;
  slice_count = pos count;
  participation = some 1;
  min_slice_size = some 100;
}

served-IsServed : IsServed served
served-IsServed = record {
  alive = λ i. refl;
  is_ready = λ i. refl;
  keeps_room = λ i m h. h;
  drains = λ i m h. h;
}

limitable : IsLimitable (order_of 350 10)
limitable = record {
  has_symbol = ground (arith, eq_iff "600000" "");
  has_side = inl refl;
  has_price = refl;
}

well_formed : IsWellFormed (order_of 350 10)
well_formed = record {
  has_symbol = ground (arith, eq_iff "600000" "");
  has_side = inl refl;
  is_positive = refl;
  is_priced = inr (inl (refl, refl));
}

vwap_runs :
    (execute_vwap digits (some quote) served 0 (order_of 350 10) (config "vwap" 3) engine).0
    ≡ finished
unfolding execute_vwap expert_octo_enigma.Execution.slice_loop
vwap_runs = refl

iceberg_completes_example :
    (e : Engine Whole) × (execute_iceberg digits served 5 0
        (order_of 350 10)
        (config "iceberg" 0)
        engine
      ≡ (finished, e))
    × Sliced Whole-IsExact digits (order_of 350 10) 100 350 engine e
iceberg_completes_example =
    iceberg_completes Whole-IsExact digits served 0 (order_of 350 10) (config "iceberg" 0) 100 350 4
      engine served-IsServed limitable refl refl (omega arith) (omega arith) (omega arith)
      (omega arith) (omega arith) (omega arith)

iceberg_never_ends_example :
    let (ending, e) =
      execute_iceberg digits served 5 0 (order_of 350 0) (config "iceberg" 0) engine in
    (ending ≡ running) × (length (slices_of "a" e) ≡ length (slices_of "a" engine) + 5)
iceberg_never_ends_example =
    iceberg_never_ends digits served 5 0 (order_of 350 0) (config "iceberg" 0) engine (λ j. refl)
      refl refl refl

abbrev sliced : List (Execution Whole)
sliced =
    record {
      before = λ m. m;
      first = some quote;
      rounds = served;
      fuel = 9;
      pointer = 0;
      config = config "iceberg" 0;
    }
    ∷ []

nothing_filled_example :
    let e = run digits sliced (new_execution_engine manager true) in
    (calculate_execution_price "a" e ≡ none)
    × (calculate_completion_rate "a" e
        ≡ Option.map (λ o. whole.div (nought {F = Whole}) o.quantity) (lookup "a" e.orders))
nothing_filled_example = nothing_filled digits manager true sliced "a" refl
