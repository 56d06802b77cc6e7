-- ===== src/Routing/Caching.antt =====
-- The quotes that the router of trading/order/routing.go keeps.
use expert_octo_enigma.Prelude.{
  String, ◌≡◌, Bool, true, false, not, Option, none, some, List, [], ◌∷◌, arith, All, str_eq,
  eq_iff, if◌then◌else◌,
}
use expert_octo_enigma.Prelude.Int.{ℤ}
use expert_octo_enigma.Prelude.{ℕ}
use expert_octo_enigma.Table.{lookup, lookup-insert}
use expert_octo_enigma.Float.{Float}
use expert_octo_enigma.Orders.{Order}
use expert_octo_enigma.Routing.{
  Liquidity, Router, keep_answer, get_liquidity_info, update_liquidity, clear_cache, route_by,
  route_with, route_order, estimate_slippage,
}

-- A call, with the market as it is at the time.
pub data Call (F : Type 0) : Type 0 where
  routes estimates : (String → Option (Liquidity F)) → Order F → Call F
  updates : Liquidity F → Call F
  clears : Call F

-- A call that does not replace the quote of a symbol.
abbrev pub leaves : {F : Type 0} → String → Call F → Bool
leaves symbol (routes market o) = true
leaves symbol (estimates market o) = true
leaves symbol (updates l) = not (str_eq l.symbol symbol)
leaves symbol clears = false

module _ {F : Type 0} ⦃f : Float F⦄ (ceil : F → ℤ) (ids : ℕ → String) where
  pub perform : Call F → Router F → Router F
  unfolding route_order estimate_slippage update_liquidity clear_cache
  perform (routes market o) r = (route_order ceil ids market o r).1
  perform (estimates market o) r = (estimate_slippage market o r).1
  perform (updates l) r = update_liquidity l r
  perform clears r = clear_cache r

  pub run : List (Call F) → Router F → Router F
  unfolding perform
  run [] r = r
  run (c ∷ cs) r = run cs (perform c r)

  keep_answer_keeps :
      (wanted symbol : String) (found : Option (Liquidity F)) (l : Liquidity F) (r : Router F)
      → lookup wanted r.liquidity_cache ≡ none
      → lookup symbol r.liquidity_cache ≡ some l
      → lookup symbol (keep_answer wanted found r).1.liquidity_cache ≡ some l
  unfolding keep_answer
  keep_answer_keeps wanted symbol none l r n h = h
  keep_answer_keeps wanted symbol (some k) l r n h =
      ground (arith, n, h, eq_iff wanted symbol, lookup-insert wanted symbol k r.liquidity_cache)

  info_keeps :
      (market : String → Option (Liquidity F)) (wanted symbol : String) (l : Liquidity F)
      (r : Router F)
      → lookup symbol r.liquidity_cache ≡ some l
      → lookup symbol (get_liquidity_info market wanted r).1.liquidity_cache ≡ some l
  unfolding get_liquidity_info keep_answer
  info_keeps market wanted symbol l r h = ground (
    arith,
    h,
    keep_answer_keeps wanted symbol (if r.has_market_data then market wanted else none) l r,
  )

  perform_keeps :
      (c : Call F) (symbol : String) (l : Liquidity F) (r : Router F)
      → leaves symbol c ≡ true
      → lookup symbol r.liquidity_cache ≡ some l
      → lookup symbol (perform c r).liquidity_cache ≡ some l
  unfolding perform route_order estimate_slippage update_liquidity
  perform_keeps (routes market o) symbol l r q h =
      ground (arith, info_keeps market o.symbol symbol l r h)
  perform_keeps (estimates market o) symbol l r q h =
      ground (arith, info_keeps market o.symbol symbol l r h)
  perform_keeps (updates k) symbol l r q h =
      ground (arith, h, lookup-insert k.symbol symbol k r.liquidity_cache)
  perform_keeps clears symbol l r q h = cc

  -- A quote that the router has once is the one that every later order of the symbol is routed by,
  -- whatever the market answers then, through every sequence of routes, estimates and updates of
  -- other symbols: a quote has no age.
  pub quote_never_expires :
      (cs : List (Call F)) (market : String → Option (Liquidity F)) (o : Order F) (l : Liquidity F)
      (r : Router F)
      → lookup o.symbol r.liquidity_cache ≡ some l
      → All (λ c. leaves o.symbol c ≡ true) cs
      → route_order ceil ids market o (run cs r) ≡ (route_by ceil ids (run cs r) o l, run cs r)
  unfolding run route_order get_liquidity_info route_with
  quote_never_expires [] market o l r h q = ground (arith, h)
  quote_never_expires (c ∷ cs) market o l r h q =
      quote_never_expires cs market o l (perform c r) (perform_keeps c o.symbol l r q.0 h) q.1
