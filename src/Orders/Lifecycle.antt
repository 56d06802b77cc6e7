-- ===== src/Orders/Lifecycle.antt =====
-- What becomes of an order of trading/order/manager.go: the steps of `executeOrder` and of
-- `CancelOrder`.
use expert_octo_enigma.Prelude.{
  ℕ, zero, suc, String, ◌≡◌, ◌≢◌, refl, ◌∙◌, ◌↔◌, inl, inr, false, none, some, List, ◌∷◌, arith,
  eq_iff, subst, Option-cases,
}
use expert_octo_enigma.Table.{lookup}
use expert_octo_enigma.Orders.{
  Order, Manager, Worker, waiting, taken, marked, executing, filling, submitted, filled, cancelled,
  write, update_order_status, restatus, work, cancel_at, cancel_order, not_found, already,
}

module _ {F : Type 0} where
  -- `n` steps of the goroutine, the clock of each by its number from `i` on; it does not leave.
  pub run_work : ℕ → ℕ → (ℕ → ℕ) → Manager F → Manager F
  run_work zero i clock m = m
  run_work (suc n) i clock m = run_work n (suc i) clock (work false (clock i) m)

  -- The order at `p` is in the map under its ID.
  abbrev pub Registered : Manager F → ℕ → Type 0
  Registered m p = lookup (m.heap p).id m.orders ≡ some p

  -- The order is filled in full at its own price.
  pub record IsFilled (o o' : Order F) : Type 0 where
    pub is_filled : o'.status ≡ filled
    pub in_full : o'.filled_quantity ≡ o.quantity
    pub at_price : o'.avg_price ≡ o.price
    pub same_quantity : o'.quantity ≡ o.quantity
    pub same_price : o'.price ≡ o.price
    pub same_id : o'.id ≡ o.id

  -- One order is executed: the goroutine waits again, the rest of the queue and the map stay.
  pub record IsExecuted (p : ℕ) (rest : List ℕ) (m n : Manager F) : Type 0 where
    pub fill : IsFilled (m.heap p) (n.heap p)
    pub waits : n.worker ≡ waiting
    pub left : n.queue ≡ rest
    pub same_orders : n.orders ≡ m.orders
    pub others : (q : ℕ) → q ≢ p → n.heap q ≡ m.heap q

  -- The state after each of the five steps.
  abbrev take_order : ℕ → List ℕ → Manager F → Manager F
  take_order p rest m = record m { queue = rest; worker = taken p }

  abbrev write_order : ℕ → Order F → Worker → Manager F → Manager F
  write_order p o w m = record m { heap = write m.heap p o; worker = w }

  work_waiting :
      (p : ℕ) (rest : List ℕ) (now : ℕ) (m : Manager F)
      → m.worker ≡ waiting
      → m.queue ≡ p ∷ rest
      → work false now m ≡ take_order p rest m
  unfolding work
  work_waiting p rest now m w q = ground arith

  work_taken :
      (p now : ℕ) (m : Manager F)
      → m.worker ≡ taken p
      → Registered m p
      → work false now m ≡ write_order p (restatus submitted "" now (m.heap p)) (marked p) m
  unfolding work update_order_status
  work_taken p now m w r = ground arith

  work_marked :
      (p now : ℕ) (m : Manager F)
      → m.worker ≡ marked p
      → work false now m ≡ write_order p (record (m.heap p) { submit_time = now }) (executing p) m
  unfolding work
  work_marked p now m w = ground arith

  work_executing :
      (p now : ℕ) (m : Manager F)
      → m.worker ≡ executing p
      → Registered m p
      → work false now m ≡ write_order p (restatus filled "" now (m.heap p)) (filling p) m
  unfolding work update_order_status
  work_executing p now m w r = ground arith

  abbrev fill_order : ℕ → Order F → Order F
  fill_order now o = record o { filled_quantity = o.quantity; avg_price = o.price; fill_time = now }

  work_filling :
      (p now : ℕ) (m : Manager F)
      → m.worker ≡ filling p
      → work false now m ≡ write_order p (fill_order now (m.heap p)) waiting m
  unfolding work
  work_filling p now m w = ground arith

  -- From a waiting goroutine with a registered order at the head of the queue, five steps execute
  -- it, whatever its status, and change no other order.
  pub execute_order_fills :
      (p : ℕ) (rest : List ℕ) (i : ℕ) (clock : ℕ → ℕ) (m : Manager F)
      → m.worker ≡ waiting
      → m.queue ≡ p ∷ rest
      → Registered m p
      → IsExecuted p rest m (run_work 5 i clock m)
  unfolding run_work restatus
  execute_order_fills p rest i clock m w q r =
      let m1 = take_order p rest m in
      let m2 = write_order p (restatus submitted "" (clock (suc i)) (m.heap p)) (marked p) m1 in
      let m3 =
        write_order p (record (m2.heap p) { submit_time = clock (suc (suc i)) }) (executing p) m2 in
      let m4 =
        write_order p (restatus filled "" (clock (suc (suc (suc i)))) (m3.heap p)) (filling p) m3 in
      rw (work_waiting p rest (clock i) m w q) (
        rw (work_taken p (clock (suc i)) m1 refl r) (
          rw (work_marked p (clock (suc (suc i))) m2 refl) (
            rw (work_executing p (clock (suc (suc (suc i)))) m3 refl (ground arith)) (
              rw (work_filling p (clock (suc (suc (suc (suc i))))) m4 refl) (record {
                fill = ground arith;
                waits = refl;
                left = refl;
                same_orders = refl;
                others = λ x h. ground arith;
              })))))

  cancel_order_found :
      (id : String) (now p : ℕ) (m : Manager F)
      → lookup id m.orders ≡ some p
      → cancel_order id now m ≡ cancel_at id p now m
  unfolding cancel_order
  cancel_order_found id now p m e = ground arith

  cancel_order_missing :
      (id : String) (now : ℕ) (m : Manager F)
      → lookup id m.orders ≡ none
      → cancel_order id now m ≡ (some not_found, m)
  unfolding cancel_order
  cancel_order_missing id now m e = ground arith

  -- An order that can still be cancelled.
  abbrev pub IsOpen : Order F → Type 0
  IsOpen o = (o.status ≢ filled) × (o.status ≢ cancelled)

  cancel_at_iff :
      (id : String) (p now : ℕ) (m : Manager F)
      → ((cancel_at id p now m).0 ≡ none) ↔ IsOpen (m.heap p)
  unfolding cancel_at
  cancel_at_iff id p now m =
      ground (arith, eq_iff (m.heap p).status filled, eq_iff (m.heap p).status cancelled)

  -- `CancelOrder` succeeds exactly on an ID whose order is in the map and neither filled nor
  -- cancelled.
  pub cancel_order_iff :
      (id : String) (now : ℕ) (m : Manager F)
      → ((cancel_order id now m).0 ≡ none)
        ↔ ((p : ℕ) × (lookup id m.orders ≡ some p) × IsOpen (m.heap p))
  cancel_order_iff id now m = elim (Option-cases (lookup id m.orders)) [
    | inl e ↦ (λ h. cc (cancel_order_missing id now m e), λ (p, x, o). cc)
    | inr (p, e) ↦
        let found = cancel_order_found id now p m e in
        (
          λ h. (p, e, (cancel_at_iff id p now m).0 (rw found at h)),
          λ (q, x, o).
              let same : q ≡ p = ground (arith, x, e) in
              rw found ((cancel_at_iff id p now m).1 (subst (λ y. IsOpen (m.heap y)) same o)),
        )
  ]

  abbrev cancelled_state : ℕ → ℕ → Manager F → Manager F
  cancelled_state p now m = record m {
    heap = write m.heap p (record (m.heap p) { status = cancelled; update_time = now });
  }

  cancel_at_open :
      (id : String) (p now : ℕ) (m : Manager F)
      → IsOpen (m.heap p)
      → cancel_at id p now m ≡ (none, cancelled_state p now m)
  unfolding cancel_at
  cancel_at_open id p now m o =
      ground (arith, eq_iff (m.heap p).status filled, eq_iff (m.heap p).status cancelled)

  cancel_order_open :
      (id : String) (now p : ℕ) (m : Manager F)
      → lookup id m.orders ≡ some p
      → IsOpen (m.heap p)
      → cancel_order id now m ≡ (none, cancelled_state p now m)
  cancel_order_open id now p m e o = cancel_order_found id now p m e ∙ cancel_at_open id p now m o

  cancel_order_again :
      (id : String) (later p : ℕ) (m : Manager F)
      → lookup id m.orders ≡ some p
      → (m.heap p).status ≡ cancelled
      → cancel_order id later m ≡ (some (already cancelled), m)
  unfolding cancel_at
  cancel_order_again id later p m e h =
      rw (cancel_order_found id later p m e) (ground (arith, eq_iff (m.heap p).status cancelled))

  -- A cancelled order is `cancelled`, nothing else about it but its time changes, no other order
  -- changes, and cancelling it again is refused.
  pub cancel_order_effect :
      (id : String) (now later p : ℕ) (m : Manager F)
      → lookup id m.orders ≡ some p
      → IsOpen (m.heap p)
      → let n = (cancel_order id now m).1 in
        (n.heap p ≡ record (m.heap p) { status = cancelled; update_time = now })
        × ((q : ℕ) → q ≢ p → n.heap q ≡ m.heap q)
        × (n.queue ≡ m.queue)
        × (cancel_order id later n ≡ (some (already cancelled), n))
  cancel_order_effect id now later p m e o = rw (cancel_order_open id now p m e o) (
    ground arith,
    λ q h. ground arith,
    refl,
    cancel_order_again id later p (cancelled_state p now m) e (ground arith),
  )

  -- An accepted cancellation does not stop the execution: an order at the head of the queue is
  -- cancelled without error, and the next five steps of the goroutine fill it all the same.
  pub cancelled_order_fills :
      (id : String) (now p : ℕ) (rest : List ℕ) (i : ℕ) (clock : ℕ → ℕ) (m : Manager F)
      → m.worker ≡ waiting
      → m.queue ≡ p ∷ rest
      → lookup id m.orders ≡ some p
      → (m.heap p).id ≡ id
      → IsOpen (m.heap p)
      → let n = (cancel_order id now m).1 in
        ((cancel_order id now m).0 ≡ none)
        × ((n.heap p).status ≡ cancelled)
        × (((run_work 5 i clock n).heap p).status ≡ filled)
  cancelled_order_fills id now p rest i clock m w q e same o =
      rw (cancel_order_open id now p m e o) (
        refl,
        ground arith,
        (execute_order_fills p rest i clock (cancelled_state p now m) w q
            (ground arith)).fill.is_filled,
      )
