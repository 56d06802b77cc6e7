-- ===== src/Executor.antt =====
-- trading/order_executor.go: the order executor over the risk manager and the position manager. The
-- broker's client and the conversion `int(x)` of a float are arguments. What is sent to the broker is
-- kept in order in `placed` and `cancelled`. Order records are only logged; the trade history is left out.
pub mod Buying
pub mod Selling
pub mod Syncing
pub mod Sends
mod Tests
use expert_octo_enigma.Prelude.{
  ℕ, suc, ◌+◌, String, Bool, true, false, not, ◌||◌, ◌⊎◌, inl, inr, Option, none, some, List, [],
  ◌∷◌, ◌++◌, map, keep, if◌then◌else◌, str_eq,
}
use expert_octo_enigma.Prelude.Int.{ℤ, pos, ltb_ℤ, ◌*ℤ◌}
use expert_octo_enigma.Table.{lookup}
use expert_octo_enigma.Float.{Float, nought}
use expert_octo_enigma.Lock.{
  Method, Guarded, Outcome, done, blocked, crashed, and_then, pure, ◌>>=◌, ◌>>◌,
}
use expert_octo_enigma.RiskManager.{
  RiskManager, RiskError, Answers, OrderRequest, check_before_order,
}
use expert_octo_enigma.Positions.{Positions, PositionState, Trade, get_position, update_position}

pub record BrokerOrder : Type 0 where
  pub order_id : String
  pub status : String

-- The broker's answers; `none` and `false` for errors.
pub record Broker (F : Type 0) : Type 0 where
  pub buy : String → F → ℤ → Option String
  pub sell : String → F → ℤ → Option String
  pub cancel : String → Bool
  pub orders : Option (List BrokerOrder)
  pub trades : Option (List (Trade F))

pub record Placed (F : Type 0) : Type 0 where
  pub type : String
  pub symbol : String
  pub price : F
  pub quantity : ℤ

pub record Executor (F : Type 0) : Type 0 where
  pub risk : Guarded (RiskManager F)
  pub positions : Guarded (Positions F)
  pub placed : List (Placed F)
  pub cancelled : List String

pub data ExecutionError : Type 0 where
  risk_refused : RiskError → ExecutionError
  quantity_too_small broker_failed no_position not_available order_not_found : ExecutionError

abbrev pub sent : Option String → ExecutionError ⊎ String
sent none = inl broker_failed
sent (some id) = inr id

abbrev pub is_pending : BrokerOrder → Bool
is_pending o = str_eq o.status "已报" || str_eq o.status "部分成交"

module _ {F : Type 0} ⦃f : Float F⦄ where
  -- `CalculateQuantity`: whole lots of 100.
  unfoldable pub calculate_quantity : (F → ℤ) → OrderRequest F → ℤ
  calculate_quantity to_int order =
      if f.le order.price nought
      then pos 0
      else to_int (f.div (f.div (f.of_int order.amount) order.price) (f.lit 100 0)) *ℤ pos 100

  abbrev pub buy_request : (F → ℤ) → String → F → F → OrderRequest F
  buy_request to_int symbol price amount = record {
    type = "buy";
    symbol = symbol;
    price = price;
    amount = to_int amount;
  }

  -- The call of the broker, which is tried whatever it answers.
  unfoldable pub place_buy :
      (F → ℤ) → Broker F → OrderRequest F → Executor F → (ExecutionError ⊎ String) × Executor F
  unfolding calculate_quantity
  place_buy to_int broker order x =
      let quantity = calculate_quantity to_int order in
      if not (ltb_ℤ (pos 0) quantity) then (inl quantity_too_small, x) else (
        sent (broker.buy order.symbol order.price quantity),
        record x {
          placed =
              x.placed
              ++ record {
                type = "buy";
                symbol = order.symbol;
                price = order.price;
                quantity = quantity;
              }
                ∷ [];
        },
      )

  abbrev after_check :
      (F → ℤ)
      → Broker F
      → OrderRequest F
      → Option RiskError
      → Executor F
      → (ExecutionError ⊎ String) × Executor F
  after_check to_int broker order (some e) x = (inl (risk_refused e), x)
  after_check to_int broker order none x = place_buy to_int broker order x

  unfoldable pub execute_buy :
      (F → ℤ)
      → Broker F
      → Answers F
      → String
      → F
      → F
      → Executor F
      → Outcome ((ExecutionError ⊎ String) × Executor F)
  unfolding place_buy
  execute_buy to_int broker answers symbol price amount x =
      let order = buy_request to_int symbol price amount in
      and_then (check_before_order answers order x.risk)
        (λ r. done (after_check to_int broker order r.0 (record x { risk = r.1 })))

  unfoldable pub sell_from :
      Broker F
      → String
      → F
      → ℤ
      → Option (PositionState F)
      → Executor F
      → (ExecutionError ⊎ String) × Executor F
  sell_from broker symbol price quantity none x = (inl no_position, x)
  sell_from broker symbol price quantity (some p) x =
      if ltb_ℤ p.available quantity then (inl not_available, x) else (
        sent (broker.sell symbol price quantity),
        record x {
          placed =
              x.placed
              ++ record { type = "sell"; symbol = symbol; price = price; quantity = quantity } ∷ [];
        },
      )

  unfoldable pub execute_sell :
      Broker F → String → F → ℤ → Executor F → Outcome ((ExecutionError ⊎ String) × Executor F)
  unfolding sell_from
  execute_sell broker symbol price quantity x =
      and_then (get_position symbol x.positions)
        (λ r. done (sell_from broker symbol price quantity r.0 (record x { positions = r.1 })))

  unfoldable pub execute_stop_loss :
      Broker F → String → F → Executor F → Outcome ((ExecutionError ⊎ String) × Executor F)
  unfolding execute_sell
  execute_stop_loss broker symbol price x = and_then (get_position symbol x.positions) (λ r.
      elim r.0 [
        | none ↦ done (inl no_position, record x { positions = r.1 })
        | some p ↦ execute_sell broker symbol price p.amount (record x { positions = r.1 })
      ])

  unfoldable pub execute_cancel :
      Broker F → String → Executor F → Option ExecutionError × Executor F
  execute_cancel broker id x = (
    if broker.cancel id then none else some broker_failed,
    record x { cancelled = x.cancelled ++ id ∷ [] },
  )

  unfoldable pub get_pending : Broker F → Option (List BrokerOrder)
  get_pending broker = elim broker.orders [ none ↦ none | some os ↦ some (keep is_pending os) ]

  cancel_each : Broker F → List BrokerOrder → Executor F → Executor F
  unfolding execute_cancel
  cancel_each broker [] x = x
  cancel_each broker (o ∷ os) x = cancel_each broker os (execute_cancel broker o.order_id x).1

  unfoldable pub cancel_all_orders : Broker F → Executor F → Option ExecutionError × Executor F
  unfolding get_pending cancel_each
  cancel_all_orders broker x = elim (get_pending broker) [
    | none ↦ (some broker_failed, x)
    | some os ↦ (none, cancel_each broker os x)
  ]

  unfoldable pub check_order_status : Broker F → String → ExecutionError ⊎ BrokerOrder
  check_order_status broker id = elim broker.orders [
    | none ↦ inl broker_failed
    | some os ↦ first os
  ]
    where
      first : List BrokerOrder → ExecutionError ⊎ BrokerOrder
      first [] = inl order_not_found
      first (o ∷ os) = let rest = first os in if str_eq o.order_id id then inr o else rest

  -- The loop of `SyncTrades`, which drops what `UpdatePosition` answers.
  unfoldable pub sync_loop : ℕ → List (Trade F) → Method (Positions F) (Unit {0})
  sync_loop now [] = pure tt
  sync_loop now (t ∷ ts) = let rest = sync_loop now ts in update_position now t >> rest

  unfoldable pub sync_trades :
      ℕ → Broker F → Executor F → Outcome (Option ExecutionError × Executor F)
  unfolding sync_loop
  sync_trades now broker x = elim broker.trades [
    | none ↦ done (some broker_failed, x)
    | some ts ↦
        and_then (sync_loop now ts x.positions) (λ r. done (none, record x { positions = r.1 }))
  ]
