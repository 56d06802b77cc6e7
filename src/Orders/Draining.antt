-- ===== src/Orders/Draining.antt =====
-- The goroutine of trading/order/manager.go over a whole queue.
use expert_octo_enigma.Prelude.{
  ℕ, zero, suc, ◌+◌, ◌≡◌, ◌≢◌, sym, ◌⊎◌, inl, inr, List, [], ◌∷◌, arith, length, All, some, subst,
}
use expert_octo_enigma.Table.{lookup}
use expert_octo_enigma.Orders.{Manager, waiting, filled}
use expert_octo_enigma.Orders.Lifecycle.{run_work, Registered, IsExecuted, execute_order_fills}

ℕ-cases : (a b : ℕ) → (a ≡ b) ⊎ (a ≢ b)
ℕ-cases a b = ground arith

module _ {F : Type 0} where
  -- Rounds of five steps, the clock running on.
  pub run_rounds : ℕ → ℕ → (ℕ → ℕ) → Manager F → Manager F
  run_rounds zero i clock m = m
  run_rounds (suc n) i clock m = run_rounds n (i + 5) clock (run_work 5 i clock m)

  abbrev pub FilledAt : Manager F → ℕ → Type 0
  FilledAt m p = (m.heap p).status ≡ filled

  Registered-executed :
      (p q : ℕ) (rest : List ℕ) (m n : Manager F)
      → IsExecuted p rest m n
      → Registered m q
      → Registered n q
  Registered-executed p q rest m n x r = elim (ℕ-cases q p) [
    | inl e ↦ rw (x.same_orders) (
        subst (λ y. lookup (n.heap y).id m.orders ≡ some y) (sym e)
          (rw (x.fill.same_id) (subst (λ y. lookup (m.heap y).id m.orders ≡ some y) e r)))
    | inr d ↦ rw (x.same_orders, x.others q d) r
  ]

  FilledAt-executed :
      (p q : ℕ) (rest : List ℕ) (m n : Manager F)
      → IsExecuted p rest m n
      → FilledAt m q
      → FilledAt n q
  FilledAt-executed p q rest m n x h = elim (ℕ-cases q p) [
    | inl e ↦ subst (FilledAt n) (sym e) x.fill.is_filled
    | inr d ↦ rw (x.others q d) h
  ]

  All-Registered :
      (p : ℕ) (rest qs : List ℕ) (m n : Manager F)
      → IsExecuted p rest m n
      → All (Registered m) qs
      → All (Registered n) qs
  All-Registered p rest [] m n x h = tt
  All-Registered p rest (q ∷ qs) m n x (r, rs) =
      (Registered-executed p q rest m n x r, All-Registered p rest qs m n x rs)

  FilledAt-rounds :
      (queue : List ℕ) (i : ℕ) (clock : ℕ → ℕ) (m : Manager F) (q : ℕ)
      → m.worker ≡ waiting
      → m.queue ≡ queue
      → All (Registered m) queue
      → FilledAt m q
      → FilledAt (run_rounds (length queue) i clock m) q
  unfolding run_rounds
  FilledAt-rounds [] i clock m q w e h k = k
  FilledAt-rounds (p ∷ rest) i clock m q w e (r, rs) k =
      let n = run_work 5 i clock m in
      let x = execute_order_fills p rest i clock m w e r in
      FilledAt-rounds rest (i + 5) clock n q x.waits x.left (All-Registered p rest rest m n x rs)
        (FilledAt-executed p q rest m n x k)

  -- Liveness: if the goroutine waits and every queued order is registered, five steps for each
  -- queued order, with nothing in between, empty the queue and fill all of them.
  pub rounds_fill_queue :
      (queue : List ℕ) (i : ℕ) (clock : ℕ → ℕ) (m : Manager F)
      → m.worker ≡ waiting
      → m.queue ≡ queue
      → All (Registered m) queue
      → let n = run_rounds (length queue) i clock m in
        (n.queue ≡ []) × (n.worker ≡ waiting) × All (FilledAt n) queue
  unfolding run_rounds
  rounds_fill_queue [] i clock m w e h = (e, w, tt)
  rounds_fill_queue (p ∷ rest) i clock m w e (r, rs) =
      let n = run_work 5 i clock m in
      let x = execute_order_fills p rest i clock m w e r in
      let ks = All-Registered p rest rest m n x rs in
      let (a, b, c) = rounds_fill_queue rest (i + 5) clock n x.waits x.left ks in
      (a, b, (FilledAt-rounds rest (i + 5) clock n p x.waits x.left ks x.fill.is_filled, c))
