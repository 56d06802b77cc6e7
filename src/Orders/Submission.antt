-- ===== src/Orders/Submission.antt =====
-- `SubmitOrder` of trading/order/manager.go, on each of its branches.
use expert_octo_enigma.Prelude.{
  ℕ, ◌<◌, String, ◌≡◌, ◌≢◌, refl, sym, ap, ◌∙◌, ◌↔◌, ◌⊎◌, inl, inr, Option-cases, none, some, [],
  ◌∷◌, ◌++◌, arith, eq_iff, length,
}
use expert_octo_enigma.Float.{Float}
use expert_octo_enigma.Table.{lookup, lookup-insert}
use expert_octo_enigma.Orders.{
  Manager, queued, invalid, ValidationError, Ready, room, context, timer, pending, context_done,
  queue_full, validate_order, check_risk, begin_submit, store_order, enqueue, end_submit,
  submit_order, generate_order_id,
}
use expert_octo_enigma.Orders.Validation.{IsWellFormed, validate_order_iff}

abbrev pub HasRoom : {F : Type 0} → Manager F → Type 0
HasRoom m = length m.queue < m.max_pending_orders

module _ {F : Type 0} ⦃f : Float F⦄ (decimal : ℕ → String) where
  -- Whatever the stored order looked like, it is in the map, pending, under its ID, and no other
  -- order has changed.
  pub record IsStored (p : ℕ) (m n : Manager F) : Type 0 where
    pub found : lookup (n.heap p).id n.orders ≡ some p
    pub is_pending : (n.heap p).status ≡ pending
    pub same_id : (m.heap p).id ≢ "" → (n.heap p).id ≡ (m.heap p).id
    pub others : (q : ℕ) → q ≢ p → n.heap q ≡ m.heap q

  store_order-IsStored :
      (nanos created updated p : ℕ) (m : Manager F)
      → IsStored p m (store_order decimal nanos created updated p m)
  unfolding store_order
  store_order-IsStored nanos created updated p m = record {
    found = ground (
      arith,
      eq_iff (generate_order_id decimal nanos) (generate_order_id decimal nanos),
      eq_iff (m.heap p).id (m.heap p).id,
      lookup-insert (generate_order_id decimal nanos) (generate_order_id decimal nanos) p m.orders,
      lookup-insert (m.heap p).id (m.heap p).id p m.orders,
    );
    is_pending = ground arith;
    same_id = ground (arith, eq_iff (m.heap p).id "");
    others = λ q h. ground arith;
  }

  store_order-queue :
      (nanos created updated p : ℕ) (m : Manager F)
      → let n = store_order decimal nanos created updated p m in
        (n.queue ≡ m.queue) × (n.max_pending_orders ≡ m.max_pending_orders)
  unfolding store_order
  store_order-queue nanos created updated p m = (refl, refl)

  -- A call goes on to its `select` exactly with a well-formed order, which is then stored.
  begin_submit-IsStored :
      (nanos created updated p : ℕ) (m : Manager F)
      → let (r, n) = begin_submit decimal nanos created updated p m in
        (IsWellFormed (m.heap p) ↔ (r ≡ none))
        × (r ≡ none
            → IsStored p m n × (n.queue ≡ m.queue) × (n.max_pending_orders ≡ m.max_pending_orders))
  unfolding begin_submit check_risk
  begin_submit-IsStored nanos created updated p m = (
    (
      λ w. ground (arith, validate_order_iff (m.heap p)),
      λ r. ground (arith, r, validate_order_iff (m.heap p)),
    ),
    λ r. ground (
      arith,
      r,
      store_order-IsStored nanos created updated p m,
      store_order-queue nanos created updated p m,
    ),
  )

  -- The order passes the checks and is stored, or the call has ended with an error.
  submit_order-cases :
      (ready : Ready) (wait : Manager F → Manager F) (nanos created updated p : ℕ) (m : Manager F)
      → let (r, n) = begin_submit decimal nanos created updated p m in
        (IsWellFormed (m.heap p)
          × (submit_order decimal ready wait nanos created updated p m ≡ enqueue ready p (wait n)))
        ⊎ ((¬ IsWellFormed (m.heap p))
            × ((e : ValidationError) × (submit_order decimal ready wait nanos created updated p m
                  ≡ (invalid e, m))))
  unfolding submit_order begin_submit end_submit check_risk
  submit_order-cases ready wait nanos created updated p m =
      elim (Option-cases (validate_order (m.heap p))) [
        | inl v ↦ inl (ground (arith, v, validate_order_iff (m.heap p)), ground (arith, v))
        | inr (e, v) ↦
            inr (λ w. ground (arith, v, w, validate_order_iff (m.heap p)), (e, ground (arith, v)))
      ]

  enqueue-max :
      (ready : Ready) (p : ℕ) (m : Manager F)
      → (enqueue ready p m).1.max_pending_orders ≡ m.max_pending_orders
  unfolding enqueue
  enqueue-max room p m = ground arith
  enqueue-max context p m = refl
  enqueue-max timer p m = refl

  enqueue_queued_iff :
      (ready : Ready) (p : ℕ) (m : Manager F)
      → ((id : String) × ((enqueue ready p m).0 ≡ queued id)) ↔ ((ready ≡ room) × HasRoom m)
  unfolding enqueue
  enqueue_queued_iff room p m =
      (λ (id, h). ground (arith, h), λ (e, l). ((m.heap p).id, ground (arith, l)))
  enqueue_queued_iff context p m = (λ (id, h). ground (arith, h), λ (e, l). cc e)
  enqueue_queued_iff timer p m = (λ (id, h). ground (arith, h), λ (e, l). cc e)

  -- While an order waits for the queue, other goroutines work on: it is queued exactly when it is well
  -- formed, the queue decides the wait, and the queue then has room, however full it was at the call.
  pub submit_queued_iff :
      (ready : Ready) (wait : Manager F → Manager F) (nanos created updated p : ℕ) (m : Manager F)
      → let n = wait (begin_submit decimal nanos created updated p m).1 in
        ((id : String) × ((submit_order decimal ready wait nanos created updated p m).0
            ≡ queued id))
        ↔ (IsWellFormed (m.heap p) × (ready ≡ room) × HasRoom n)
  submit_queued_iff ready wait nanos created updated p m =
      let n = wait (begin_submit decimal nanos created updated p m).1 in
      elim (submit_order-cases ready wait nanos created updated p m) [
        | inl (w, e) ↦ (
          λ (id, h).
              let (a, b) = (enqueue_queued_iff ready p n).0 (id, ap (λ z. z.0) (sym e) ∙ h) in
              (w, a, b),
          λ (v, a, b).
              let (id, k) = (enqueue_queued_iff ready p n).1 (a, b) in (id, ap (λ z. z.0) e ∙ k),
        )
        | inr (w, (x, e)) ↦ (λ (id, h). ground (arith, e, h), λ (v, a, b). absurd (w v))
      ]

  -- A queued order was stored, pending, before the wait, and stands at the end of the queue that the
  -- wait left, under the returned ID.
  pub submit_queued :
      (ready : Ready) (wait : Manager F → Manager F) (nanos created updated p : ℕ) (m : Manager F)
      (id : String)
      → (submit_order decimal ready wait nanos created updated p m).0 ≡ queued id
      → let stored = (begin_submit decimal nanos created updated p m).1 in
        let n = (submit_order decimal ready wait nanos created updated p m).1 in
        IsStored p m stored
        × (((wait stored).heap p).id ≡ id)
        × (n.queue ≡ (wait stored).queue ++ p ∷ [])
  unfolding submit_order begin_submit end_submit enqueue check_risk
  submit_queued room wait nanos created updated p m id h =
      ground (arith, h, store_order-IsStored nanos created updated p m)
  submit_queued context wait nanos created updated p m id h = ground (arith, h)
  submit_queued timer wait nanos created updated p m id h = ground (arith, h)

  -- An order that fails the validation changes nothing.
  pub submit_invalid :
      (ready : Ready) (wait : Manager F → Manager F) (nanos created updated p : ℕ) (m : Manager F)
      (e : ValidationError)
      → (submit_order decimal ready wait nanos created updated p m).0 ≡ invalid e
      → (submit_order decimal ready wait nanos created updated p m).1 ≡ m
  unfolding submit_order begin_submit end_submit enqueue check_risk
  submit_invalid room wait nanos created updated p m e h = ground (arith, h)
  submit_invalid context wait nanos created updated p m e h = ground (arith, h)
  submit_invalid timer wait nanos created updated p m e h = ground (arith, h)

  -- An order that is given up, because its context ended or the queue stayed full, has been stored as
  -- pending, and is not put in the queue; the caller has got an error and no ID.
  pub submit_abandoned :
      (ready : Ready) (wait : Manager F → Manager F) (nanos created updated p : ℕ) (m : Manager F)
      → let stored = (begin_submit decimal nanos created updated p m).1 in
        let (r, n) = submit_order decimal ready wait nanos created updated p m in
        (r ≡ context_done) ⊎ (r ≡ queue_full) → IsStored p m stored × (n ≡ wait stored)
  unfolding submit_order begin_submit end_submit enqueue check_risk
  submit_abandoned room wait nanos created updated p m h =
      ground (arith, h, store_order-IsStored nanos created updated p m)
  submit_abandoned context wait nanos created updated p m h =
      ground (arith, h, store_order-IsStored nanos created updated p m)
  submit_abandoned timer wait nanos created updated p m h =
      ground (arith, h, store_order-IsStored nanos created updated p m)

  -- A well-formed order is queued where the queue has room and other goroutines do not fill it.
  pub submit_accepts :
      (wait : Manager F → Manager F) (nanos created updated p : ℕ) (m : Manager F)
      → IsWellFormed (m.heap p)
      → ((n : Manager F) → HasRoom n → HasRoom (wait n))
      → HasRoom m
      → (id : String) × ((submit_order decimal room wait nanos created updated p m).0 ≡ queued id)
  submit_accepts wait nanos created updated p m w h l =
      let n = (begin_submit decimal nanos created updated p m).1 in
      let (iff, stored) = begin_submit-IsStored nanos created updated p m in
      let (a, b, c) = stored (iff.0 w) in
      (submit_queued_iff room wait nanos created updated p m).1
        (w, refl, h n (omega (arith, l, ap length b, c)))

  -- A submission leaves places in the queue's channel where there are some after its wait.
  pub submit_order-max :
      (ready : Ready) (wait : Manager F → Manager F) (nanos created updated p : ℕ) (m : Manager F)
      → ((n : Manager F) → HasRoom n → HasRoom (wait n))
      → HasRoom m
      → 0 < (submit_order decimal ready wait nanos created updated p m).1.max_pending_orders
  submit_order-max ready wait nanos created updated p m h l =
      let n = (begin_submit decimal nanos created updated p m).1 in
      elim (submit_order-cases ready wait nanos created updated p m) [
        | inl (w, e) ↦
            let (iff, stored) = begin_submit-IsStored nanos created updated p m in
            let (a, b, c) = stored (iff.0 w) in
            rw e
              (omega (arith, enqueue-max ready p (wait n), h n (omega (arith, l, ap length b, c))))
        | inr (w, (x, e)) ↦ rw e (omega (arith, l))
      ]
