-- ===== src/Orders.antt =====
-- trading/order/manager.go: the order manager, its queue and the goroutine that executes orders.
-- Orders are shared by pointer between the caller, the map and the queue, so they stand on a heap.
-- A section under the lock is one step, so that the calls of other goroutines fall between steps:
-- `SubmitOrder` is `begin_submit`, a wait, and the decision of its `select`.
-- Statuses, sides and types are strings, as in the source. Every reading of the clock is an argument.
mod Data
pub mod Validation
pub mod Submission
pub mod Invariant
pub mod Lifecycle
pub mod Draining
pub mod Queries
mod Tests
use Prim.Native.String.{◌++◌ as str_append}
pub use Data.*
use expert_octo_enigma.Prelude.{
  ℕ, suc, ◌+◌, String, Bool, true, false, not, ◌&&◌, ◌||◌, Option, none, some, List, [], ◌∷◌, ◌++◌,
  map, ltb, ◌==◌, str_eq, if◌then◌else◌, length, keep,
}
use expert_octo_enigma.Table.{Table, lookup, insert, values}
use mathlib.Core.Option
use expert_octo_enigma.Float.{Float, nought}

-- `NewOrderManager` and `Start`: 100 orders and 30 seconds unless the configuration says otherwise.
pub new_order_manager : {F : Type 0} → (ℕ → Order F) → Bool → ℕ → ℕ → Manager F
new_order_manager heap risk max_pending timeout = record {
  heap = heap;
  orders = [];
  queue = [];
  max_pending_orders = if max_pending == 0 then 100 else max_pending;
  order_timeout = if timeout == 0 then 30_000_000_000 else timeout;
  has_risk_manager = risk;
  stopped = false;
  worker = waiting;
}

-- `fmt.Sprintf("ord_%d", …)`, over the decimal form of a number.
pub generate_order_id : (ℕ → String) → ℕ → String
generate_order_id decimal nanos = str_append "ord_" (decimal nanos)

module _ {F : Type 0} ⦃f : Float F⦄ where
  -- The `switch` over the type.
  validate_type : Order F → Option ValidationError
  validate_type o =
      if str_eq o.type "limit"
      then if f.le o.price nought then some price_required else none
      else if str_eq o.type "stop" || str_eq o.type "stop_limit"
      then if f.le o.stop_price nought then some stop_price_required else none
      else if str_eq o.type "market"
      then none
      else some invalid_type

  pub validate_order : Order F → Option ValidationError
  unfolding validate_type
  validate_order o =
      if str_eq o.symbol ""
      then some symbol_required
      else if not (str_eq o.side "buy") && not (str_eq o.side "sell")
      then some invalid_side
      else if f.le o.quantity nought
      then some quantity_not_positive
      else validate_type o

  -- `checkRisk` refuses nothing, with a risk manager or without.
  check_risk : Manager F → Order F → Option SubmitResult
  check_risk m o = if m.has_risk_manager then none else none

  -- From the choice of an ID to the entry in the map.
  store_order : (ℕ → String) → ℕ → ℕ → ℕ → ℕ → Manager F → Manager F
  store_order decimal nanos created updated p m =
      let o = m.heap p in
      let id = if str_eq o.id "" then generate_order_id decimal nanos else o.id in
      record m {
        heap =
            write m.heap p (record o {
              id = id;
              status = pending;
              create_time = created;
              update_time = updated;
            });
        orders = insert id p m.orders;
      }

  -- `SubmitOrder` up to its `select`: a refusal, or none where the order is stored.
  pub begin_submit : (ℕ → String) → ℕ → ℕ → ℕ → ℕ → Manager F → Option SubmitResult × Manager F
  unfolding check_risk store_order
  begin_submit decimal nanos created updated p m = elim (validate_order (m.heap p)) [
    | some e ↦ (some (invalid e), m)
    | none ↦ elim (check_risk m (m.heap p)) [
      | some r ↦ (some r, m)
      | none ↦ (none, store_order decimal nanos created updated p m)
    ]
  ]

  -- The decision of the `select`, in the state that it finds: the queue is a channel of
  -- `max_pending_orders` places.
  pub enqueue : Ready → ℕ → Manager F → SubmitResult × Manager F
  enqueue room p m =
      if ltb (length m.queue) m.max_pending_orders
      then (queued (m.heap p).id, record m { queue = m.queue ++ p ∷ [] })
      else (queue_full, m)
  enqueue context p m = (context_done, m)
  enqueue timer p m = (queue_full, m)

  -- The call waits in its `select`, up to five seconds, while other goroutines do `wait`.
  end_submit :
      Ready
      → (Manager F → Manager F)
      → ℕ
      → Option SubmitResult × Manager F
      → SubmitResult × Manager F
  unfolding enqueue
  end_submit ready wait p (some r, m) = (r, m)
  end_submit ready wait p (none, m) = enqueue ready p (wait m)

  pub submit_order :
      (ℕ → String)
      → Ready
      → (Manager F → Manager F)
      → ℕ
      → ℕ
      → ℕ
      → ℕ
      → Manager F
      → SubmitResult × Manager F
  unfolding begin_submit end_submit
  submit_order decimal ready wait nanos created updated p m =
      end_submit ready wait p (begin_submit decimal nanos created updated p m)

module _ {F : Type 0} where
  -- The message of the order at a pointer, unless the new one is empty.
  restatus : String → String → ℕ → Order F → Order F
  restatus status message now o = record o {
    status = status;
    update_time = now;
    error_message = if str_eq message "" then o.error_message else message;
  }

  update_order_status : String → String → String → ℕ → Manager F → Manager F
  unfolding restatus
  update_order_status id status message now m = elim (lookup id m.orders) [
    | none ↦ m
    | some p ↦ record m { heap = write m.heap p (restatus status message now (m.heap p)) }
  ]

  -- The goroutine takes the order at the head of the queue, or, once the manager is stopped, may
  -- leave.
  receive : List ℕ → Bool → Manager F → Manager F
  receive queue true m = if m.stopped then record m { worker = gone } else m
  receive [] false m = m
  receive (p ∷ rest) false m = record m { queue = rest; worker = taken p }

  -- One step of the goroutine; `leave` is the choice of its `select` when the manager is stopped.
  -- `executeOrder` has four steps: two updates under the lock, each followed by writes through the
  -- pointer with no lock.
  work_from : Worker → Bool → ℕ → Manager F → Manager F
  unfolding receive update_order_status
  work_from waiting leave now m = receive m.queue leave m
  work_from gone leave now m = m
  work_from (taken p) leave now m = record (update_order_status (m.heap p).id submitted "" now m) {
    worker = marked p;
  }
  work_from (marked p) leave now m = record m {
    heap = write m.heap p (record (m.heap p) { submit_time = now });
    worker = executing p;
  }
  work_from (executing p) leave now m = record (update_order_status (m.heap p).id filled "" now m) {
    worker = filling p;
  }
  work_from (filling p) leave now m =
      let o = m.heap p in
      record m {
        heap =
            write m.heap p
              (record o { filled_quantity = o.quantity; avg_price = o.price; fill_time = now });
        worker = waiting;
      }

  pub work : Bool → ℕ → Manager F → Manager F
  unfolding work_from
  work leave now m = work_from m.worker leave now m

  -- `Stop` closes the channel; closing it again panics.
  pub stop : Manager F → Option (Manager F)
  stop m = if m.stopped then none else some (record m { stopped = true })

  cancel_at : String → ℕ → ℕ → Manager F → Option CancelError × Manager F
  cancel_at id p now m =
      let o = m.heap p in
      if str_eq o.status filled || str_eq o.status cancelled
      then (some (already o.status), m)
      else (
        none,
        record m { heap = write m.heap p (record o { status = cancelled; update_time = now }) },
      )

  pub cancel_order : String → ℕ → Manager F → Option CancelError × Manager F
  unfolding cancel_at
  cancel_order id now m = elim (lookup id m.orders) [
    | none ↦ (some not_found, m)
    | some p ↦ cancel_at id p now m
  ]

  -- A copy of the order.
  pub get_order : String → Manager F → Option (Order F)
  get_order id m = Option.map m.heap (lookup id m.orders)
