-- ===== src/Orders/Invariant.antt =====
-- What holds of a manager of trading/order/manager.go after any sequence of its steps.
use Prim.Native.String.{count}
use text.Mathlib.TextLemmas.{length-append as length-append-text}
use expert_octo_enigma.Prelude.{
  ℕ, ◌≤◌, String, ◌≡◌, ◌≢◌, sym, ◌∙◌, ap, Bool, true, Option, some, List, [], ◌∷◌, arith, ltb,
  eq_iff, length, length-append, ltb→lt, subst, Bool-cases, inl, inr, Option-cases,
}
use mathlib.Core.Option
use mathlib.Core.Option.{some-injective}
use expert_octo_enigma.Float.{Float}
use expert_octo_enigma.Table.{lookup, Distinct, lookup-insert, insert-Distinct}
use expert_octo_enigma.Orders.{
  Order, Manager, Worker, waiting, gone, taken, marked, executing, filling, Ready, room, context,
  timer, store_order, enqueue, begin_submit, generate_order_id, new_order_manager,
  update_order_status, work_from, work, stop, cancel_order,
}

module _ {F : Type 0} where
  -- The queue fits its channel; the map has each ID once, none empty, and leads to the order of that
  -- ID.
  pub record Inv (m : Manager F) : Type 0 where
    pub bounded : length m.queue ≤ m.max_pending_orders
    pub distinct : Distinct m.orders
    pub keyed : (k : String) (p : ℕ) → lookup k m.orders ≡ some p → (m.heap p).id ≡ k
    pub named : (k : String) (p : ℕ) → lookup k m.orders ≡ some p → k ≢ ""

  -- A change of orders that keeps their IDs, the map and the capacity, and lengthens no queue.
  pub record KeepsIds (m n : Manager F) : Type 0 where
    pub same_ids : (p : ℕ) → (n.heap p).id ≡ (m.heap p).id
    pub same_orders : n.orders ≡ m.orders
    pub same_capacity : n.max_pending_orders ≡ m.max_pending_orders
    pub no_longer : length n.queue ≤ length m.queue

  KeepsIds-Inv : (m n : Manager F) → KeepsIds m n → Inv m → Inv n
  KeepsIds-Inv m n k v = record {
    bounded = omega (arith, k.no_longer, k.same_capacity, v.bounded);
    distinct = rw (k.same_orders) v.distinct;
    keyed = λ j p e. k.same_ids p ∙ v.keyed j p (ap (lookup j) (sym k.same_orders) ∙ e);
    named = λ j p e. v.named j p (ap (lookup j) (sym k.same_orders) ∙ e);
  }

  update-KeepsIds :
      (id status message : String) (now : ℕ) (m : Manager F)
      → KeepsIds m (update_order_status id status message now m)
  unfolding update_order_status
  update-KeepsIds id status message now m = record {
    same_ids = λ p. ground arith;
    same_orders = ground arith;
    same_capacity = ground arith;
    no_longer = ground arith;
  }

  work_from-KeepsIds :
      (w : Worker) (leave : Bool) (now : ℕ) (m : Manager F) → KeepsIds m (work_from w leave now m)
  unfolding work_from
  work_from-KeepsIds waiting leave now m = ground arith
  work_from-KeepsIds gone leave now m = ground arith
  work_from-KeepsIds (taken p) leave now m = ground arith
  work_from-KeepsIds (marked p) leave now m = ground arith
  work_from-KeepsIds (executing p) leave now m = ground arith
  work_from-KeepsIds (filling p) leave now m = ground arith

  cancel-KeepsIds : (id : String) (now : ℕ) (m : Manager F) → KeepsIds m (cancel_order id now m).1
  unfolding cancel_order
  cancel-KeepsIds id now m = record {
    same_ids = λ p. ground arith;
    same_orders = ground arith;
    same_capacity = ground arith;
    no_longer = ground arith;
  }

  new-Inv :
      (heap : ℕ → Order F) (risk : Bool) (max_pending timeout : ℕ)
      → Inv (new_order_manager heap risk max_pending timeout)
  unfolding new_order_manager lookup
  new-Inv heap risk max_pending timeout = record {
    bounded = omega arith;
    distinct = tt;
    keyed = λ k p e. cc;
    named = λ k p e. cc;
  }

generate_order_id_lem : (decimal : ℕ → String) (n : ℕ) → generate_order_id decimal n ≢ ""
unfolding generate_order_id
generate_order_id_lem decimal n e = omega (arith, ap count e, length-append-text "ord_" (decimal n))

-- The calls of the manager and the steps of its goroutine. A submission is two steps, between which
-- others fall: what comes before its `select`, and the decision of the `select`. A decision is allowed
-- for any order, also for one that no call has brought to its `select`.
pub data Event : Type 0 where
  submits : ℕ → ℕ → ℕ → ℕ → Event
  selects : Ready → ℕ → Event
  works : Bool → ℕ → Event
  cancels : String → ℕ → Event
  stops : Event

module _ {F : Type 0} ⦃f : Float F⦄ (decimal : ℕ → String) where
  store_order-Inv :
      (nanos created updated p : ℕ) (m : Manager F)
      → Inv m
      → Inv (store_order decimal nanos created updated p m)
  unfolding store_order
  store_order-Inv nanos created updated p m v =
      let fresh = generate_order_id decimal nanos in
      let id = (m.heap p).id in
      record {
        bounded = v.bounded;
        distinct = ground (
          arith,
          insert-Distinct fresh p m.orders v.distinct,
          insert-Distinct id p m.orders v.distinct,
        );
        keyed = λ k q e. ground (
          arith,
          eq_iff id "",
          eq_iff fresh k,
          eq_iff id k,
          lookup-insert fresh k p m.orders,
          lookup-insert id k p m.orders,
          v.keyed k q,
          v.named k q,
        );
        named = λ k q e. ground (
          arith,
          eq_iff id "",
          eq_iff fresh k,
          eq_iff id k,
          generate_order_id_lem decimal nanos,
          lookup-insert fresh k p m.orders,
          lookup-insert id k p m.orders,
          v.named k q,
        );
      }

  -- `Stop` on a stopped manager panics, so it has no next state.
  pub step : Event → Manager F → Option (Manager F)
  step (submits nanos created updated p) m = some (begin_submit decimal nanos created updated p m).1
  step (selects ready p) m = some (enqueue ready p m).1
  step (works leave now) m = some (work leave now m)
  step (cancels id now) m = some (cancel_order id now m).1
  step stops m = stop m

  enqueue-Inv : (ready : Ready) (p : ℕ) (m : Manager F) → Inv m → Inv (enqueue ready p m).1
  unfolding enqueue
  enqueue-Inv room p m v = elim (Bool-cases (ltb (length m.queue) m.max_pending_orders)) [
    | inl free ↦ rw free (record {
      bounded = omega (arith, length-append m.queue (p ∷ []), ltb→lt _ _ free);
      distinct = v.distinct;
      keyed = v.keyed;
      named = v.named;
    })
    | inr full ↦ rw full v
  ]
  enqueue-Inv context p m v = v
  enqueue-Inv timer p m v = v

  begin_submit-Inv :
      (nanos created updated p : ℕ) (m : Manager F)
      → Inv m
      → Inv (begin_submit decimal nanos created updated p m).1
  unfolding begin_submit
  begin_submit-Inv nanos created updated p m v =
      ground (arith, v, store_order-Inv nanos created updated p m v)

  -- Every call and every step of the goroutine keeps the invariant.
  pub step-Inv : (e : Event) (m n : Manager F) → step e m ≡ some n → Inv m → Inv n
  unfolding step stop work
  step-Inv (submits nanos created updated p) m n h v =
      subst Inv (some-injective _ _ h) (begin_submit-Inv nanos created updated p m v)
  step-Inv (selects ready p) m n h v = subst Inv (some-injective _ _ h) (enqueue-Inv ready p m v)
  step-Inv (works leave now) m n h v =
      subst Inv (some-injective _ _ h)
        (KeepsIds-Inv m _ (work_from-KeepsIds m.worker leave now m) v)
  step-Inv (cancels id now) m n h v =
      subst Inv (some-injective _ _ h) (KeepsIds-Inv m _ (cancel-KeepsIds id now m) v)
  step-Inv stops m n h v = elim (Bool-cases m.stopped) [
    | inl e ↦ cc (rw e at h)
    | inr e ↦
        subst Inv (some-injective _ _ (rw e at h))
          (KeepsIds-Inv m (record m { stopped = true }) (ground arith) v)
  ]

  -- The events of a history one after the other, up to a panic.
  unfoldable pub run : List Event → Manager F → Option (Manager F)
  unfolding step
  run [] m = some m
  run (e ∷ es) m = Option.bind (step e m) (run es)

  run_from-Inv : (es : List Event) (m n : Manager F) → run es m ≡ some n → Inv m → Inv n
  unfolding run Option.bind
  run_from-Inv [] m n h v = subst Inv (some-injective _ _ h) v
  run_from-Inv (e ∷ es) m n h v = elim (Option-cases (step e m)) [
    | inl x ↦ cc (rw (x, Option.bind) at h)
    | inr (k, x) ↦ run_from-Inv es k n (ground (arith, x)) (step-Inv e m k x v)
  ]

  -- In every state that a new manager reaches, whatever the orders of its callers, the queue fits
  -- its channel, and the map has each ID once, none empty, and leads to the order with that ID.
  pub run-Inv :
      (heap : ℕ → Order F) (risk : Bool) (max_pending timeout : ℕ) (es : List Event) (n : Manager F)
      → run es (new_order_manager heap risk max_pending timeout) ≡ some n
      → Inv n
  run-Inv heap risk max_pending timeout es n h =
      run_from-Inv es _ n h (new-Inv heap risk max_pending timeout)
