-- ===== src/Orders/Tests.antt =====
-- Runs of trading/order/manager.go and its theorems at concrete inputs. Floats are whole numbers.
use expert_octo_enigma.Prelude.{
  ℕ, ◌+◌, String, ◌≡◌, refl, ◌↔◌, true, false, none, some, List, [], ◌∷◌, arith, eq_iff, All,
  if◌then◌else◌, ◌==◌,
}
use mathlib.Core.Option
use expert_octo_enigma.Table.{lookup, insert}
use expert_octo_enigma.Float.Whole.{Whole, whole}
use expert_octo_enigma.Orders.{
  Order, Manager, Ready, room, timer, context, waiting, taken, write, queued, quantity_not_positive,
  pending, submitted, partial, rejected, failed, filled, cancelled, already, new_order_manager,
  validate_order, begin_submit, submit_order, work, cancel_order,
}
use expert_octo_enigma.Orders.Validation.{IsWellFormed}
use expert_octo_enigma.Orders.Submission.{HasRoom, submit_queued_iff}
use expert_octo_enigma.Orders.Invariant.{
  Inv, Event, submits, selects, works, cancels, stops, run, run-Inv,
}
use expert_octo_enigma.Orders.Lifecycle.{
  run_work, IsExecuted, IsOpen, execute_order_fills, cancelled_order_fills,
}
use expert_octo_enigma.Orders.Draining.{run_rounds, FilledAt, rounds_fill_queue}
use expert_octo_enigma.Orders.Queries.{OrderFilter, by_status}

abbrev limit_order : String → ℕ → Order Whole
limit_order id quantity = record {
  id = id;
  symbol = "600000";
  side = "buy";
  type = "limit";
  quantity = some quantity;
  price = some 10;
  stop_price = some 0;
  status = "";
  filled_quantity = some 0;
  avg_price = some 0;
  create_time = 0;
  update_time = 0;
  submit_time = 0;
  fill_time = 0;
  error_message = "";
  parent_order_id = "";
  child_orders = [];
  metadata = [];
}

abbrev shelf : ℕ → Order Whole
shelf p =
    if p == 0 then limit_order "a" 100 else if p == 1 then limit_order "" 200 else limit_order "c" 0

abbrev digits : ℕ → String
digits n = if n == 7 then "7" else "8"

abbrev idle : Manager Whole
idle = record {
  heap = shelf;
  orders = [];
  queue = [];
  max_pending_orders = 2;
  order_timeout = 30;
  has_risk_manager = false;
  stopped = false;
  worker = waiting;
}

-- Two orders wait, the second under a generated ID.
abbrev loaded : Manager Whole
loaded = record idle {
  heap = λ p. if p == 1 then record (limit_order "ord_7" 200) { status = "pending" } else shelf p;
  orders = ("a", 0) ∷ ("ord_7", 1) ∷ [];
  queue = 0 ∷ 1 ∷ [];
}

-- The queue is full at the call, and the goroutine takes an order from it during the wait.
abbrev crowded : Manager Whole
crowded = record idle { queue = 0 ∷ 0 ∷ [] }

abbrev taken_from : Manager Whole → Manager Whole
taken_from m = work false 9 m

queued_in_the_end : (submit_order digits room taken_from 7 8 9 1 crowded).0 ≡ queued "ord_7"
unfolding submit_order expert_octo_enigma.Orders.begin_submit expert_octo_enigma.Orders.end_submit
    expert_octo_enigma.Orders.enqueue work validate_order expert_octo_enigma.Orders.store_order
    expert_octo_enigma.Orders.generate_order_id
queued_in_the_end = refl

submit_queued_iff_example :
    let n = taken_from (begin_submit digits 7 8 9 1 crowded).1 in
    ((id : String) × ((submit_order digits room taken_from 7 8 9 1 crowded).0 ≡ queued id))
    ↔ (IsWellFormed (shelf 1) × (room ≡ room) × HasRoom n)
submit_queued_iff_example = submit_queued_iff digits room taken_from 7 8 9 1 crowded

abbrev story : List Event
story = submits 7 8 9 1 ∷ selects room 1 ∷ works false 10 ∷ cancels "ord_7" 11 ∷ stops ∷ []

abbrev after_story : Manager Whole
after_story = record idle {
  heap =
      write (write shelf 1 (stored 8 9)) 1
        (record (stored 8 9) { status = cancelled; update_time = 11 });
  orders = ("ord_7", 1) ∷ [];
  order_timeout = 30;
  stopped = true;
  worker = taken 1;
}
  where
    stored : ℕ → ℕ → Order Whole
    stored created updated = record (limit_order "ord_7" 200) {
      status = pending;
      create_time = created;
      update_time = updated;
    }

run-Inv_example : Inv after_story
unfolding run Option.bind expert_octo_enigma.Orders.stop cancel_order lookup work begin_submit
    validate_order new_order_manager expert_octo_enigma.Orders.enqueue
    expert_octo_enigma.Orders.store_order insert expert_octo_enigma.Orders.generate_order_id
run-Inv_example = run-Inv digits shelf false 2 30 story after_story refl

execute_order_fills_example : IsExecuted 0 (1 ∷ []) loaded (run_work 5 0 (λ i. i + 50) loaded)
unfolding lookup
execute_order_fills_example = execute_order_fills 0 (1 ∷ []) 0 (λ i. i + 50) loaded refl refl refl

pending-IsOpen : IsOpen (loaded.heap 1)
pending-IsOpen = ground (arith, eq_iff pending filled, eq_iff pending cancelled)

abbrev last_order : Manager Whole
last_order = record loaded { queue = 1 ∷ [] }

cancelled_order_fills_example :
    let n = (cancel_order "ord_7" 3 last_order).1 in
    ((cancel_order "ord_7" 3 last_order).0 ≡ none)
    × ((n.heap 1).status ≡ cancelled)
    × (((run_work 5 0 (λ i. i + 50) n).heap 1).status ≡ filled)
unfolding lookup
cancelled_order_fills_example =
    cancelled_order_fills "ord_7" 3 1 [] 0 (λ i. i + 50) last_order refl refl refl refl
      pending-IsOpen

rounds_fill_queue_example :
    let n = run_rounds 2 0 (λ i. i + 50) loaded in
    (n.queue ≡ []) × (n.worker ≡ waiting) × All (FilledAt n) (0 ∷ 1 ∷ [])
unfolding lookup
rounds_fill_queue_example =
    rounds_fill_queue (0 ∷ 1 ∷ []) 0 (λ i. i + 50) loaded refl refl (refl, (refl, tt))

abbrev recent : OrderFilter
recent = record (by_status pending) { symbol = "600000"; min_time = 5 }
