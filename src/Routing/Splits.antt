-- ===== src/Routing/Splits.antt =====
-- The orders that trading/order/routing.go makes out of one.
use native.Mathlib.Nat.{mul_comm, suc-mul}
use expert_octo_enigma.Prelude.{
  ap, false, Bool-cases, ℕ, zero, suc, ◌+◌, ◌-◌, ◌*◌, ◌≤◌, ◌<◌, String, ◌≡◌, refl, ◌⊎◌, inl, inr,
  true, false, Option, none, some, [], ◌∷◌, arith, length, All, ◌∙◌,
}
use expert_octo_enigma.Prelude.Int.{ℤ, pos, ◌-ℤ◌, pos_part}
use expert_octo_enigma.Float.{Float}
use expert_octo_enigma.Float.Exact.{IsExact, of_ℕ, exact_limit}
use expert_octo_enigma.Orders.{Order}
use expert_octo_enigma.Routing.{
  Liquidity, Router, Routed, is_last, available, part_quantity, split_loop, split_count, split_into,
  route_best_price, route_spread, route_liquidity, route_by, route_order, keep_answer, route_with,
  get_liquidity_info,
}

module _ {F : Type 0} ⦃f : Float F⦄ (ids : ℕ → String) where
  -- An order of the caller's, or a part of it: the parent's symbol, side, type and price.
  pub record IsPart (o p : Order F) : Type 0 where
    pub symbol : p.symbol ≡ o.symbol
    pub side : p.side ≡ o.side
    pub parent : p.parent_order_id ≡ o.id
    pub price : p.price ≡ o.price

  split_loop-IsPart :
      (o : Order F) (n : ℤ) (share : F) (left i : ℕ)
      → All (IsPart o) (split_loop ids o n share left i)
        × (length (split_loop ids o n share left i) ≡ left)
  unfolding split_loop
  split_loop-IsPart o n share zero i = (tt, refl)
  split_loop-IsPart o n share (suc left) i =
      let (a, b) = split_loop-IsPart o n share left (i + 1) in
      ((record { symbol = refl; side = refl; parent = refl; price = refl }, a), omega (arith, b))

  -- The caller's order alone, or at most `k` parts.
  abbrev Fits : ℕ → Routed F → Type 0
  Fits k (after, orders) = (orders ≡ after ∷ []) ⊎ (All (IsPart after) orders × (length orders ≤ k))

  split_into-Fits :
      (r : Router F) (o : Order F) (n : ℤ) (k : ℕ) → pos_part n ≤ k → Fits k (split_into ids r o n)
  unfolding split_into
  split_into-Fits r o n k h =
      ground (arith, split_loop-IsPart o n (f.div o.quantity (f.of_int n)) (pos_part n) 0)

  split_count-le :
      (ceil : F → ℤ) (r : Router F) (o : Order F) (l : Liquidity F) (k : ℕ)
      → r.config.max_splits ≡ pos k
      → pos_part (split_count ceil r o l) ≤ k
  unfolding split_count
  split_count-le ceil r o l k h = ground arith

  route_by-Fits :
      (ceil : F → ℤ) (r : Router F) (o : Order F) (l : Liquidity F) (k : ℕ)
      → r.config.max_splits ≡ pos k
      → Fits k (route_by ceil ids r o l)
  unfolding route_by route_best_price route_spread route_liquidity
  route_by-Fits ceil r o l k h =
      ground (arith, split_into-Fits r o (split_count ceil r o l) k (split_count-le ceil r o l k h))

  info_config :
      (market : String → Option (Liquidity F)) (symbol : String) (r : Router F)
      → (get_liquidity_info market symbol r).1.config ≡ r.config
  unfolding get_liquidity_info keep_answer
  info_config market symbol r = ground arith

  route_with-Fits :
      (ceil : F → ℤ) (o : Order F) (k : ℕ) (found : Option (Liquidity F)) (r : Router F)
      → r.config.max_splits ≡ pos k
      → Fits k (route_with ceil ids o (found, r)).0
  unfolding route_with
  route_with-Fits ceil o k none r h = inl refl
  route_with-Fits ceil o k (some l) r h = route_by-Fits ceil r o l k h

  -- A route gives the caller's order alone, as it is afterwards, or at most as many parts as the
  -- configuration allows, each with the symbol, the side and the price of the order and its ID as the
  -- parent's.
  pub route_order-IsPart :
      (ceil : F → ℤ) (market : String → Option (Liquidity F)) (o : Order F) (r : Router F) (k : ℕ)
      → r.config.max_splits ≡ pos k
      → let (after, orders) = (route_order ceil ids market o r).0 in
        (orders ≡ after ∷ []) ⊎ (All (IsPart after) orders × (length orders ≤ k))
  unfolding route_order
  route_order-IsPart ceil market o r k h =
      let (found, s) = get_liquidity_info market o.symbol r in
      route_with-Fits ceil o k found s (ap (λ c. c.max_splits) (info_config market o.symbol r) ∙ h)

pub split : (n k : ℕ) → 0 < n → n * k ≡ (n - 1) * k + k
split zero k h = absurd (omega arith)
split (suc n) k h = suc-mul n k ∙ ap (λ m. m * k + k) (omega arith)

predecessor : (n : ℕ) → 0 < n → pos n -ℤ pos 1 ≡ pos (n - 1)
unfolding ◌-ℤ◌
predecessor n h = ground arith

module _ {F : Type 0} ⦃f : Float F⦄ (exact : IsExact F) where
  pub even_part :
      (n k i : ℕ)
      → 0 < n
      → n * k ≤ exact_limit
      → part_quantity (of_ℕ {F = F} (n * k)) (pos n) (of_ℕ k) i ≡ of_ℕ k
  unfolding part_quantity
  even_part n k i h l = elim (Bool-cases (is_last (pos n) i)) [
    | inl e ↦
        rw (e, predecessor n h, exact.mul_of (n - 1) k (omega (arith, split n k h, l)))
          (exact.sub_of (n * k) ((n - 1) * k) (omega (arith, split n k h)) l
            ∙ ap of_ℕ (omega (arith, split n k h)))
    | inr e ↦ rw e refl
  ]

  even_loop :
      (ids : ℕ → String) (o : Order F) (n k left i : ℕ)
      → 0 < n
      → n * k ≤ exact_limit
      → o.quantity ≡ of_ℕ (n * k)
      → All (λ p. p.quantity ≡ of_ℕ k) (split_loop ids o (pos n) (of_ℕ k) left i)
  unfolding split_loop
  even_loop ids o n k zero i h l q = tt
  even_loop ids o n k (suc left) i h l q = (
    ap (λ x. part_quantity x (pos n) (of_ℕ k) i) q ∙ even_part n k i h l,
    even_loop ids o n k left (i + 1) h l q,
  )

  pub even_share :
      (o : Order F) (n k : ℕ)
      → 0 < n
      → n * k ≤ exact_limit
      → o.quantity ≡ of_ℕ (n * k)
      → f.div o.quantity (f.of_int (pos n)) ≡ of_ℕ k
  even_share o n k p m q =
      ap (λ x. f.div x (of_ℕ n)) q
      ∙ ap (λ x. f.div (of_ℕ x) (of_ℕ n)) (mul_comm n k)
      ∙ exact.div_of k n p (omega (arith, m, mul_comm n k))

  split_into_even :
      (ids : ℕ → String) (r : Router F) (o : Order F) (n k least : ℕ)
      → 0 < n
      → n * k ≤ exact_limit
      → o.quantity ≡ of_ℕ (n * k)
      → r.config.min_split_size ≡ of_ℕ least
      → least ≤ k
      → let orders = (split_into ids r o (pos n)).1 in
        (length orders ≡ n) × All (λ p. p.quantity ≡ of_ℕ k) orders
  unfolding split_into
  split_into_even ids r o n k least p m q t u =
      let share = even_share o n k p m q in
      let big : f.lt (of_ℕ k) (of_ℕ least) ≡ false =
        ground (arith, u, split n k p, m, exact.lt_of k least) in
      rw (share, t, big)
        ((split_loop-IsPart ids o (pos n) (of_ℕ k) n 0).1, even_loop ids o n k n 0 p m q)

  -- With splitting on, an order of n times k shares that is more than the market holds, where the
  -- number of parts comes to n and k is not below the least size, is routed as n parts of k shares.
  pub route_liquidity_even :
      (ceil : F → ℤ) (ids : ℕ → String) (r : Router F) (o : Order F) (l : Liquidity F)
      (n k volume least : ℕ)
      → 0 < n
      → n * k ≤ exact_limit
      → o.quantity ≡ of_ℕ (n * k)
      → available o l ≡ of_ℕ volume
      → volume < n * k
      → r.config.split_orders ≡ true
      → r.config.min_split_size ≡ of_ℕ least
      → least ≤ k
      → split_count ceil r o l ≡ pos n
      → let orders = (route_liquidity ceil ids r o l).1 in
        (length orders ≡ n) × All (λ p. p.quantity ≡ of_ℕ k) orders
  unfolding route_liquidity
  route_liquidity_even ceil ids r o l n k volume least p m q a v s t u c = ground (
    arith,
    p,
    q,
    a,
    v,
    s,
    c,
    exact.le_of (n * k) volume m (omega (arith, v, m)),
    split_into_even ids r o n k least p m q t u,
  )
