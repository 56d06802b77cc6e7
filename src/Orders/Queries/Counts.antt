-- ===== src/Orders/Queries/Counts.antt =====
-- The counts of `GetOrderStats` in trading/order/manager.go against the filtered lists.
use expert_octo_enigma.Prelude.{
  ℕ, ◌+◌, String, ◌≡◌, refl, inl, inr, false, List, [], ◌∷◌, ◌++◌, map, arith, str_eq, eq_iff,
  length, length-append, keep, Bool-cases, sym, ◌∙◌, subst,
}
use expert_octo_enigma.Table.{values}
use expert_octo_enigma.Orders.{
  Order, Manager, pending, submitted, partial, filled, cancelled, rejected, failed,
}
use expert_octo_enigma.Orders.Queries.{
  OrderStats, no_orders, by_status, misses, matches, get_orders, count_status, count_orders,
  get_order_stats, get_active_orders, get_pending_orders,
}

module _ {F : Type 0} where
  -- The orders with one status.
  with_status : String → List (Order F) → List (Order F)
  with_status s = keep (λ o. str_eq o.status s)

  matches-by_status :
      (s : String) (o : Order F) → str_eq s "" ≡ false → matches (by_status s) o ≡ str_eq o.status s
  unfolding matches misses
  matches-by_status s o h = ground (arith)

  keep-by_status :
      (s : String) (os : List (Order F))
      → str_eq s "" ≡ false
      → keep (matches (by_status s)) os ≡ with_status s os
  unfolding with_status
  keep-by_status s [] h = refl
  keep-by_status s (o ∷ os) h = ground (arith, matches-by_status s o h, keep-by_status s os h)

  -- A counter that grows by one on its own status and on no other counts the orders with it.
  count_orders-length :
      (counter : OrderStats → ℕ) (s : String)
      → ((t : OrderStats) → counter (count_status s t) ≡ counter t + 1)
      → ((r : String) (t : OrderStats)
          → str_eq r s ≡ false
          → counter (count_status r t) ≡ counter t)
      → (os : List (Order F)) (t : OrderStats)
      → counter (count_orders os t) ≡ counter t + length (with_status s os)
  unfolding count_orders with_status
  count_orders-length counter s hit miss [] t = omega arith
  count_orders-length counter s hit miss (o ∷ os) t =
      let ih = count_orders-length counter s hit miss os (count_status o.status t) in
      elim (Bool-cases (str_eq o.status s)) [
        | inl e ↦
            let own : counter (count_status o.status t) ≡ counter t + 1 =
              subst (λ r. counter (count_status r t) ≡ counter t + 1)
                (sym ((eq_iff o.status s).0 e)) (hit t) in
            rw e (omega (arith, ih, own))
        | inr e ↦ rw e (omega (arith, ih, miss o.status t e))
      ]

  count_orders-total : (os : List (Order F)) (t : OrderStats) → (count_orders os t).total ≡ t.total
  unfolding count_orders count_status
  count_orders-total [] t = refl
  count_orders-total (o ∷ os) t = count_orders-total os (count_status o.status t) ∙ ground arith

  counter-length :
      (counter : OrderStats → ℕ) (s : String)
      → ((t : OrderStats) → counter (count_status s t) ≡ counter t + 1)
      → ((r : String) (t : OrderStats)
          → str_eq r s ≡ false
          → counter (count_status r t) ≡ counter t)
      → ((n : ℕ) → counter (no_orders n) ≡ 0)
      → str_eq s "" ≡ false
      → (m : Manager F) → counter (get_order_stats m) ≡ length (get_orders (by_status s) m)
  unfolding get_order_stats get_orders
  counter-length counter s hit miss zeroed given m =
      let os = map m.heap (values m.orders) in
      rw (keep-by_status s os given) (
        omega (
          arith,
          count_orders-length counter s hit miss os (no_orders (length m.orders)),
          zeroed (length m.orders),
        ))

  get_order_stats-total : (m : Manager F) → (get_order_stats m).total ≡ length m.orders
  unfolding get_order_stats
  get_order_stats-total m =
      count_orders-total (map m.heap (values m.orders)) (no_orders (length m.orders))

  -- Each counter of the statistics is the number of orders that the filter for its status returns,
  -- and the total is the size of the map.
  pub get_order_stats-length :
      (m : Manager F)
      → let t = get_order_stats m in
        (t.total ≡ length m.orders)
        × (t.pending_count ≡ length (get_orders (by_status pending) m))
        × (t.submitted_count ≡ length (get_orders (by_status submitted) m))
        × (t.partial_count ≡ length (get_orders (by_status partial) m))
        × (t.filled_count ≡ length (get_orders (by_status filled) m))
        × (t.cancelled_count ≡ length (get_orders (by_status cancelled) m))
        × (t.rejected_count ≡ length (get_orders (by_status rejected) m))
        × (t.failed_count ≡ length (get_orders (by_status failed) m))
  unfolding count_status
  get_order_stats-length m = (
    get_order_stats-total m,
    counter-length (λ t. t.pending_count) pending (λ t. refl) (λ r t e. ground arith) (λ n. refl)
        refl m,
    counter-length (λ t. t.submitted_count) submitted (λ t. refl) (λ r t e. ground arith)
        (λ n. refl) refl m,
    counter-length (λ t. t.partial_count) partial (λ t. refl) (λ r t e. ground arith) (λ n. refl)
        refl m,
    counter-length (λ t. t.filled_count) filled (λ t. refl) (λ r t e. ground arith) (λ n. refl) refl
        m,
    counter-length (λ t. t.cancelled_count) cancelled (λ t. refl) (λ r t e. ground arith)
        (λ n. refl) refl m,
    counter-length (λ t. t.rejected_count) rejected (λ t. refl) (λ r t e. ground arith) (λ n. refl)
        refl m,
    counter-length (λ t. t.failed_count) failed (λ t. refl) (λ r t e. ground arith) (λ n. refl) refl
        m,
  )

  -- The active orders are as many as the statistics count as pending, submitted and partial, the
  -- pending ones first.
  pub get_active_orders-length :
      (m : Manager F)
      → let t = get_order_stats m in
        (length (get_active_orders m) ≡ t.pending_count + t.submitted_count + t.partial_count)
        × ((rest : List (Order F)) × (get_active_orders m ≡ get_pending_orders m ++ rest))
  unfolding get_active_orders get_pending_orders
  get_active_orders-length m =
      let (a, b, c, d, e, f, g, h) = get_order_stats-length m in
      let more = get_orders (by_status submitted) m ++ get_orders (by_status partial) m in
      (
        omega (
          arith,
          length-append (get_orders (by_status pending) m) more,
          length-append (get_orders (by_status submitted) m) (get_orders (by_status partial) m),
        ),
        (more, refl),
      )
