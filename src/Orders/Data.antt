-- ===== src/Orders/Data.antt =====
-- The types of trading/order/manager.go. Orders are shared by pointer, so a manager has a heap.
use expert_octo_enigma.Prelude.{ℕ, String, Bool, List, ◌==◌, if◌then◌else◌}
use expert_octo_enigma.Table.{Table}

-- OrderStatus
abbrev pub pending : String
pending = "pending"

abbrev pub submitted : String
submitted = "submitted"

abbrev pub partial : String
partial = "partial"

abbrev pub filled : String
filled = "filled"

abbrev pub cancelled : String
cancelled = "cancelled"

abbrev pub rejected : String
rejected = "rejected"

abbrev pub failed : String
failed = "failed"

pub record Order (F : Type 0) : Type 0 where
  pub id : String
  pub symbol : String
  pub side : String
  pub type : String
  pub quantity : F
  pub price : F
  pub stop_price : F
  pub status : String
  pub filled_quantity : F
  pub avg_price : F
  pub create_time : ℕ
  pub update_time : ℕ
  pub submit_time : ℕ
  pub fill_time : ℕ
  pub error_message : String
  pub parent_order_id : String
  pub child_orders : List String
  pub metadata : Table String

-- Where the goroutine of `processOrders` stands, with the pointer that it works on: waiting in its
-- `select`; before each of the four steps of `executeOrder`; or gone.
pub data Worker : Type 0 where
  waiting gone : Worker
  taken marked executing filling : ℕ → Worker

pub record Manager (F : Type 0) : Type 0 where
  pub heap : ℕ → Order F
  pub orders : Table ℕ
  pub queue : List ℕ
  pub max_pending_orders : ℕ
  pub order_timeout : ℕ
  pub has_risk_manager : Bool
  pub stopped : Bool
  pub worker : Worker

pub data ValidationError : Type 0 where
  symbol_required invalid_side quantity_not_positive price_required stop_price_required :
      ValidationError
  invalid_type : ValidationError

pub data SubmitResult : Type 0 where
  queued : String → SubmitResult
  invalid : ValidationError → SubmitResult
  risk_refused context_done queue_full : SubmitResult

-- What decides the `select` at the end of `SubmitOrder` after its wait: the queue (where it still has
-- no room, the five seconds run out), the end of the context, or the timer.
pub data Ready : Type 0 where
  room context timer : Ready

pub data CancelError : Type 0 where
  not_found : CancelError
  already : String → CancelError

abbrev pub write : {F : Type 0} → (ℕ → Order F) → ℕ → Order F → ℕ → Order F
write heap p o q = if q == p then o else heap q
