-- ===== src/Execution/Pov.antt =====
-- `executePOV` of trading/order/execution.go on less than its least quantity.
use expert_octo_enigma.Prelude.{
  ℕ, zero, suc, ◌+◌, String, ◌≡◌, refl, true, false, some, arith, Option-cases, inl, inr,
}
use expert_octo_enigma.Float.{Float, nought, IsOrdered}
use expert_octo_enigma.Orders.{Order}
use expert_octo_enigma.Routing.{Liquidity, available}
use expert_octo_enigma.Execution.{
  Config, Engine, Round, running, waits, smaller, get_liquidity, store_parent, sleep,
  participation_of, pov_step, pov_act, pov_round, pov_loop, execute_pov,
}

module _ {F : Type 0} ⦃f : Float F⦄ (ordered : IsOrdered F) (decimal : ℕ → String) where
  -- What is below 100 keeps the smaller of the two below 100.
  smaller_below :
      (x rest : F)
      → f.le x x ≡ true
      → f.lt rest (f.lit 100 0) ≡ true
      → f.lt (smaller decimal x rest) (f.lit 100 0) ≡ true
  smaller_below x rest n h =
      let hundred = f.lit 100 0 in
      ground (
        arith,
        n,
        h,
        ordered.lt_nan rest hundred h,
        ordered.lt_iff rest x,
        ordered.lt_iff x hundred,
        ordered.lt_iff rest hundred,
        ordered.le_trans hundred x rest,
      )

  -- No answer of the market is followed by a slice.
  pov_step-waits :
      (participation : F) (o : Order F) (r : Round F) (e : Engine F)
      → ((l : Liquidity F)
          → r.quote ≡ some l
          → f.le (f.mul (available o l) participation) (f.mul (available o l) participation) ≡ true)
      → f.lt o.quantity (f.lit 100 0) ≡ true
      → pov_step decimal participation o o.quantity r e ≡ waits
  unfolding pov_step
  pov_step-waits participation o r e n h = elim (Option-cases (get_liquidity e r.quote)) [
    | inl q ↦ ground (arith, q)
    | inr (l, q) ↦ ground (
      arith,
      q,
      smaller_below (f.mul (available o l) participation) o.quantity (n l (ground (arith, q))) h,
    )
  ]

  pov_loop-waits :
      (rounds : ℕ → Round F) (participation : F) (o : Order F) (fuel i : ℕ) (e : Engine F)
      → ((j : ℕ) → (rounds j).cancelled ≡ false)
      → ((j : ℕ) (l : Liquidity F)
          → (rounds j).quote ≡ some l
          → f.le (f.mul (available o l) participation) (f.mul (available o l) participation) ≡ true)
      → f.lt nought o.quantity ≡ true
      → f.lt o.quantity (f.lit 100 0) ≡ true
      → let (ending, e') = pov_loop decimal rounds o participation fuel i o.quantity e in
        (ending ≡ running) × (e'.slices ≡ e.slices)
  unfolding pov_loop pov_round pov_act
  pov_loop-waits rounds participation o zero i e alive n g h = (refl, refl)
  pov_loop-waits rounds participation o (suc fuel) i e alive n g h = ground (
    arith,
    g,
    alive i,
    pov_step-waits participation o (rounds i) e (n i) h,
    pov_loop-waits rounds participation o fuel (i + 1) (sleep decimal (rounds i) e) alive n g h,
  )

  -- A positive quantity below 100 is never executed by the POV algorithm: while the context lasts,
  -- whatever the market answers, the loop is still running after every number of rounds and has
  -- placed no slice. It is assumed that no product of a quoted volume with the participation is NaN.
  pub pov_never_ends :
      (rounds : ℕ → Round F) (fuel : ℕ) (o : Order F) (c : Config F) (e : Engine F)
      → ((j : ℕ) → (rounds j).cancelled ≡ false)
      → ((j : ℕ) (l : Liquidity F)
          → (rounds j).quote ≡ some l
          → f.le
              (f.mul (available o l) (participation_of decimal c))
              (f.mul (available o l) (participation_of decimal c))
            ≡ true)
      → f.lt nought o.quantity ≡ true
      → f.lt o.quantity (f.lit 100 0) ≡ true
      → let (ending, e') = execute_pov decimal rounds fuel o c e in
        (ending ≡ running) × (e'.slices ≡ e.slices)
  unfolding execute_pov
  pov_never_ends rounds fuel o c e alive n g h =
      pov_loop-waits rounds (participation_of decimal c) o fuel 0 (store_parent o e) alive n g h
