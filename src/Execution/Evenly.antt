-- ===== src/Execution/Evenly.antt =====
-- `executeTWAP` of trading/order/execution.go on a quantity that its slices divide.
use expert_octo_enigma.Prelude.{
  ℕ, zero, suc, ◌+◌, ◌*◌, ◌≤◌, ◌<◌, String, ◌≡◌, refl, ◌∙◌, ap, sym, [], ◌∷◌, ◌++◌, map, arith,
  append-nil, append-cons, copies,
}
use expert_octo_enigma.Prelude.Int.{pos}
use expert_octo_enigma.Float.{Float, nought}
use expert_octo_enigma.Float.Exact.{IsExact, of_ℕ, exact_limit}
use expert_octo_enigma.Orders.{Order, Manager, room, submitted}
use expert_octo_enigma.Orders.Validation.{IsWellFormed}
use expert_octo_enigma.Routing.{part_quantity}
use expert_octo_enigma.Routing.Splits.{even_part, even_share, split}
use expert_octo_enigma.Execution.{
  Config, Engine, Round, finished, slices_of, store_parent, place, child, slice_of, count_or,
  twap_round, slice_loop, execute_twap,
}
use expert_octo_enigma.Orders.Submission.{HasRoom}
use expert_octo_enigma.Execution.Placing.{outline, place-outline, place_accepts, place-HasRoom}
use expert_octo_enigma.Execution.Iceberg.Completing.{IsServed, positive}

module _ {F : Type 0} ⦃f : Float F⦄ (exact : IsExact F) (decimal : ℕ → String) where
  child-IsWellFormed :
      (o : Order F) (k : ℕ) (r : Round F)
      → IsWellFormed o
      → 0 < k
      → k ≤ exact_limit
      → IsWellFormed (child decimal o (of_ℕ k) r)
  unfolding child
  child-IsWellFormed o k r w h l = record {
    has_symbol = w.has_symbol;
    has_side = w.has_side;
    is_positive = positive exact decimal k h l;
    is_priced = w.is_priced;
  }

  twap_round_lem :
      (o : Order F) (n k i : ℕ) (r : Round F) (e : Engine F)
      → IsWellFormed o
      → o.quantity ≡ of_ℕ (n * k)
      → 0 < n
      → 0 < k
      → n * k ≤ exact_limit
      → r.ready ≡ room
      → ((m : Manager F) → HasRoom m → HasRoom (r.wait m))
      → ((m : Manager F) → 0 < m.max_pending_orders → HasRoom (r.meanwhile m))
      → HasRoom e.manager
      → let e' = twap_round decimal o (pos n) r i e in
        HasRoom e'.manager
        × (map outline (slices_of o.id e')
            ≡ map outline (slices_of o.id e) ++ (of_ℕ k, submitted) ∷ [])
  unfolding twap_round child place expert_octo_enigma.Table.lookup
  twap_round_lem o n k i r e w q p h l ready keeps_room drains has =
      let small : k ≤ exact_limit = omega (arith, split n k p, l) in
      let c = child decimal o (of_ℕ k) r in
      let s = slice_of decimal o c i (pos n) nought r in
      let ok =
        place_accepts decimal s c r e (child-IsWellFormed o k r w h small) ready keeps_room has in
      let size : part_quantity o.quantity (pos n) (f.div o.quantity (f.of_int (pos n))) i ≡ of_ℕ k =
        rw (even_share exact o n k p l q)
          (ap (λ x. part_quantity x (pos n) (of_ℕ k) i) q ∙ even_part exact n k i p l) in
      rw size (
        place-HasRoom decimal s c r e keeps_room drains has,
        ground (arith, ok, place-outline decimal s c r e),
      )

  twap_loop_even :
      (rounds : ℕ → Round F) (o : Order F) (n k left i : ℕ) (e : Engine F)
      → IsServed rounds
      → IsWellFormed o
      → o.quantity ≡ of_ℕ (n * k)
      → 0 < n
      → 0 < k
      → n * k ≤ exact_limit
      → HasRoom e.manager
      → (e' : Engine F) × (slice_loop decimal (twap_round decimal o (pos n)) rounds left i e
          ≡ (finished, e'))
        × (map outline (slices_of o.id e')
            ≡ map outline (slices_of o.id e) ++ copies left (of_ℕ k, submitted))
  unfolding slice_loop
  twap_loop_even rounds o n k zero i e v w q p h l has =
      (e, refl, sym (append-nil (map outline (slices_of o.id e))))
  twap_loop_even rounds o n k (suc left) i e v w q p h l has =
      let (has', t) =
        twap_round_lem o n k i (rounds i) e w q p h l (v.is_ready i) (v.keeps_room i) (v.drains i)
          has in
      let (e2, r, z) =
        twap_loop_even rounds o n k left (i + 1) (twap_round decimal o (pos n) (rounds i) i e) v w q
          p h l has' in
      (
        e2,
        ground (arith, v.alive i, r),
        z
            ∙ ap (λ xs. xs ++ copies left (of_ℕ k, submitted)) t
            ∙ sym (
                append-cons (map outline (slices_of o.id e)) (copies left (of_ℕ k, submitted))
                  (of_ℕ k, submitted)),
      )

  -- A well-formed order of n times k shares, for n slices (10 when the configuration gives none), is
  -- executed by TWAP to the end where the context lasts, the queue decides each submission, is not
  -- filled while one waits, and is drained during each sleep: it records n slices of k shares, all
  -- submitted.
  pub twap_even :
      (rounds : ℕ → Round F) (o : Order F) (c : Config F) (n k : ℕ) (e : Engine F)
      → IsServed rounds
      → IsWellFormed o
      → count_or 10 c.slice_count ≡ pos n
      → o.quantity ≡ of_ℕ (n * k)
      → 0 < n
      → 0 < k
      → n * k ≤ exact_limit
      → HasRoom e.manager
      → (e' : Engine F) × (execute_twap decimal rounds o c e ≡ (finished, e'))
        × (map outline (slices_of o.id e')
            ≡ map outline (slices_of o.id e) ++ copies n (of_ℕ k, submitted))
  unfolding execute_twap
  twap_even rounds o c n k e v w g q p h l has =
      rw g (twap_loop_even rounds o n k n 0 (store_parent o e) v w q p h l has)
