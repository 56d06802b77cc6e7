-- ===== src/Execution/Statuses.antt =====
-- Every algorithm of trading/order/execution.go leaves the statuses of slices away from `filled`.
use expert_octo_enigma.Prelude.{
  ℕ, zero, suc, ◌+◌, String, ◌≡◌, refl, Bool, false, Option, none, some, List, [], ◌∷◌, ◌++◌, arith,
  any, any-append, str_eq, eq_iff, if◌then◌else◌, Option-cases, inl, inr, subst,
}
use expert_octo_enigma.Prelude.Int.{pos_part}
use expert_octo_enigma.Table.{lookup, lookup-insert_again}
use expert_octo_enigma.Float.{Float}
use expert_octo_enigma.Orders.{Order, submitted, failed, filled}
use expert_octo_enigma.Routing.{Liquidity}
use expert_octo_enigma.Execution.{
  Config, Slice, Engine, Round, waits, nil_quote, places, slices_of, mark_last, submit, place,
  left_after, iceberg_round, pov_place, PovStep, pov_act, pov_round, least_size, participation_of,
  count_or, store_parent, execute_market, twap_round, vwap_round, slice_loop, execute_twap,
  execute_vwap, iceberg_loop, execute_iceberg, pov_loop, execute_pov, execute_with_algorithm,
  or_nothing,
}

module _ {F : Type 0} where
  abbrev pub shows_filled : List (Slice F) → Bool
  shows_filled = any (λ (s : Slice F). str_eq s.status filled)

  mark_last_lem :
      (status : String) (slices : List (Slice F))
      → str_eq status filled ≡ false
      → shows_filled slices ≡ false
      → shows_filled (mark_last status slices) ≡ false
  mark_last_lem status [] n u = refl
  mark_last_lem status (s ∷ []) n u = ground (arith, n)
  mark_last_lem status (s ∷ t ∷ rest) n u = ground (arith, n, u, mark_last_lem status (t ∷ rest) n)

module _ {F : Type 0} ⦃f : Float F⦄ (decimal : ℕ → String) where
  -- The slice's list after its placement; the other lists stay.
  pub lookup-place :
      (s : Slice F) (c : Order F) (r : Round F) (e : Engine F) (id : String)
      → lookup id (place decimal s c r e).1.slices ≡ (
          if str_eq s.order_id id
          then some (
              mark_last
                (if (place decimal s c r e).0 then submitted else failed)
                (slices_of s.order_id e ++ s ∷ []))
          else lookup id e.slices)
  unfolding place submit
  lookup-place s c r e id =
      lookup-insert_again s.order_id id (slices_of s.order_id e ++ s ∷ [])
        (λ found.
          mark_last (if (place decimal s c r e).0 then submitted else failed) (or_nothing found))
        e.slices

  module _ (id : String) where
    unfoldable pub Clean : Engine F → Type 0
    Clean e = shows_filled (slices_of id e) ≡ false

    place-Clean :
        (s : Slice F) (c : Order F) (r : Round F) (e : Engine F)
        → str_eq s.status filled ≡ false
        → Clean e
        → Clean (place decimal s c r e).1
    unfolding Clean
    place-Clean s c r e p u = ground (
      arith,
      p,
      lookup-place s c r e id,
      eq_iff s.order_id id,
      mark_last_lem submitted (slices_of s.order_id e ++ s ∷ []) refl,
      mark_last_lem failed (slices_of s.order_id e ++ s ∷ []) refl,
      any-append (λ (t : Slice F). str_eq t.status filled) (slices_of s.order_id e) (s ∷ []),
    )

    market-Clean :
        (p : ℕ) (r : Round F) (e : Engine F) → Clean e → Clean (execute_market decimal p r e).1
    unfolding Clean execute_market submit
    market-Clean p r e u = u

    slice_loop-Clean :
        (body : Round F → ℕ → Engine F → Engine F) (rounds : ℕ → Round F) (left i : ℕ)
        (e : Engine F)
        → ((r : Round F) (j : ℕ) (e' : Engine F) → Clean e' → Clean (body r j e'))
        → Clean e
        → Clean (slice_loop decimal body rounds left i e).1
    unfolding slice_loop
    slice_loop-Clean body rounds zero i e keep u = u
    slice_loop-Clean body rounds (suc left) i e keep u = ground (
      arith,
      slice_loop-Clean body rounds left (i + 1) (body (rounds i) i e) keep (keep (rounds i) i e u),
    )

    twap-Clean :
        (rounds : ℕ → Round F) (o : Order F) (c : Config F) (e : Engine F)
        → Clean e
        → Clean (execute_twap decimal rounds o c e).1
    unfolding execute_twap twap_round Clean
    twap-Clean rounds o c e u =
        slice_loop-Clean _ rounds _ 0 _ (λ r j e' v. place-Clean _ _ r e' refl v) u

    vwap-Clean :
        (first : Option (Liquidity F)) (rounds : ℕ → Round F) (p : ℕ) (o : Order F) (c : Config F)
        (e : Engine F)
        → Clean e
        → Clean (execute_vwap decimal first rounds p o c e).1
    unfolding execute_vwap vwap_round Clean
    vwap-Clean first rounds p o c e u = ground (
      arith,
      u,
      market-Clean p (rounds 0) e u,
      slice_loop-Clean (vwap_round decimal o (count_or 10 c.slice_count)) rounds
          (pos_part (count_or 10 c.slice_count)) 0 (store_parent o e)
          (λ r j e' v. place-Clean _ _ r e' refl v) u,
    )

    iceberg_round-Clean :
        (o : Order F) (least remaining : F) (r : Round F) (i : ℕ) (e : Engine F)
        → Clean e
        → Clean (iceberg_round decimal o least remaining r i e).1
    unfolding iceberg_round left_after
    iceberg_round-Clean o least remaining r i e u = place-Clean _ _ r e refl u

    pov_place-Clean :
        (o : Order F) (quantity price remaining : F) (r : Round F) (e : Engine F)
        → Clean e
        → Clean (pov_place decimal o quantity price remaining r e).1
    unfolding pov_place left_after
    pov_place-Clean o quantity price remaining r e u = place-Clean _ _ r e refl u

    iceberg_loop-Clean :
        (rounds : ℕ → Round F) (o : Order F) (least : F) (fuel i : ℕ) (remaining : F) (e : Engine F)
        → Clean e
        → Clean (iceberg_loop decimal rounds o least fuel i remaining e).1
    unfolding iceberg_loop
    iceberg_loop-Clean rounds o least zero i remaining e u = u
    iceberg_loop-Clean rounds o least (suc fuel) i remaining e u =
        let (remaining', e') = iceberg_round decimal o least remaining (rounds i) i e in
        ground (
          arith,
          u,
          iceberg_loop-Clean rounds o least fuel (i + 1) remaining' e'
              (iceberg_round-Clean o least remaining (rounds i) i e u),
        )

    abbrev Holds : Option (F × Engine F) → Type 0
    Holds none = Unit
    Holds (some (remaining, e)) = Clean e

    pov_act-Clean :
        (o : Order F) (remaining : F) (r : Round F) (e : Engine F) (step : PovStep F)
        → Clean e
        → Holds (pov_act decimal o remaining r e step)
    unfolding pov_act Clean
    pov_act-Clean o remaining r e waits u = u
    pov_act-Clean o remaining r e nil_quote u = tt
    pov_act-Clean o remaining r e (places quantity price) u =
        pov_place-Clean o quantity price remaining r e u

    pov_loop-Clean :
        (rounds : ℕ → Round F) (o : Order F) (part : F) (fuel i : ℕ) (remaining : F) (e : Engine F)
        → Clean e
        → Clean (pov_loop decimal rounds o part fuel i remaining e).1
    unfolding pov_loop pov_round
    pov_loop-Clean rounds o part zero i remaining e u = u
    pov_loop-Clean rounds o part (suc fuel) i remaining e u =
        elim (Option-cases (pov_round decimal part o remaining (rounds i) e)) [
          | inl n ↦ ground (arith, u, n)
          | inr (x, n) ↦
              let v = subst Holds n (pov_act-Clean o remaining (rounds i) e _ u) in
              ground (arith, u, n, pov_loop-Clean rounds o part fuel (i + 1) x.0 x.1 v)
        ]

    -- The executions are calls, each with what it meets.
    pub execution-Clean :
        (first : Option (Liquidity F)) (rounds : ℕ → Round F) (fuel p : ℕ) (c : Config F)
        (e : Engine F)
        → Clean e
        → Clean (execute_with_algorithm decimal first rounds fuel p c e).1
    unfolding execute_with_algorithm execute_iceberg execute_pov Clean
    execution-Clean first rounds fuel p c e u =
        let o = e.manager.heap p in
        let e' = store_parent o e in
        ground (
          arith,
          u,
          market-Clean p (rounds 0) e u,
          twap-Clean rounds o c e u,
          vwap-Clean first rounds p o c e u,
          iceberg_loop-Clean rounds o (least_size decimal c) fuel 0 o.quantity e' u,
          pov_loop-Clean rounds o (participation_of decimal c) fuel 0 o.quantity e' u,
        )
