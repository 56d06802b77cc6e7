-- ===== src/Orders/Queries.antt =====
-- The queries of trading/order/manager.go: filters, active orders and the counts by status.
pub mod Filters
pub mod Counts
use expert_octo_enigma.Prelude.{
  ℕ, ◌+◌, String, Bool, true, false, not, ◌&&◌, List, [], ◌∷◌, ◌++◌, map, ltb, ◌==◌, str_eq,
  if◌then◌else◌, length, keep,
}
use expert_octo_enigma.Table.{values}
use expert_octo_enigma.Orders.{
  Order, Manager, pending, submitted, partial, filled, cancelled, rejected, failed,
}

-- OrderFilter; the empty string and the zero time match everything.
pub record OrderFilter : Type 0 where
  pub symbol : String
  pub side : String
  pub status : String
  pub type : String
  pub min_time : ℕ
  pub max_time : ℕ

-- `f.X != "" && order.X != f.X`
misses : String → String → Bool
misses wanted actual = not (str_eq wanted "") && not (str_eq actual wanted)

module _ {F : Type 0} where
  pub matches : OrderFilter → Order F → Bool
  matches g o =
      if misses g.symbol o.symbol
      then false
      else if misses g.side o.side
      then false
      else if misses g.status o.status
      then false
      else if misses g.type o.type
      then false
      else if not (g.min_time == 0) && ltb o.create_time g.min_time
      then false
      else if not (g.max_time == 0) && ltb g.max_time o.create_time
      then false
      else true

  -- The copies of the orders that match, in the order of the map.
  pub get_orders : OrderFilter → Manager F → List (Order F)
  get_orders g m = keep (matches g) (map m.heap (values m.orders))

abbrev pub by_status : String → OrderFilter
by_status s = record { symbol = ""; side = ""; status = s; type = ""; min_time = 0; max_time = 0 }

pub record OrderStats : Type 0 where
  pub total : ℕ
  pub pending_count : ℕ
  pub submitted_count : ℕ
  pub partial_count : ℕ
  pub filled_count : ℕ
  pub cancelled_count : ℕ
  pub rejected_count : ℕ
  pub failed_count : ℕ

abbrev no_orders : ℕ → OrderStats
no_orders total = record {
  total = total;
  pending_count = 0;
  submitted_count = 0;
  partial_count = 0;
  filled_count = 0;
  cancelled_count = 0;
  rejected_count = 0;
  failed_count = 0;
}

-- The `switch` over one order's status.
count_status : String → OrderStats → OrderStats
count_status s t =
    if str_eq s pending
    then record t { pending_count = t.pending_count + 1 }
    else if str_eq s submitted
    then record t { submitted_count = t.submitted_count + 1 }
    else if str_eq s partial
    then record t { partial_count = t.partial_count + 1 }
    else if str_eq s filled
    then record t { filled_count = t.filled_count + 1 }
    else if str_eq s cancelled
    then record t { cancelled_count = t.cancelled_count + 1 }
    else if str_eq s rejected
    then record t { rejected_count = t.rejected_count + 1 }
    else if str_eq s failed
    then record t { failed_count = t.failed_count + 1 }
    else t

module _ {F : Type 0} where
  count_orders : List (Order F) → OrderStats → OrderStats
  unfolding count_status
  count_orders [] t = t
  count_orders (o ∷ os) t = count_orders os (count_status o.status t)

  pub get_pending_orders : Manager F → List (Order F)
  get_pending_orders = get_orders (by_status pending)

  pub get_active_orders : Manager F → List (Order F)
  get_active_orders m =
      get_orders (by_status pending) m
      ++ (get_orders (by_status submitted) m ++ get_orders (by_status partial) m)

  pub get_order_stats : Manager F → OrderStats
  unfolding count_orders
  get_order_stats m = count_orders (map m.heap (values m.orders)) (no_orders (length m.orders))
