-- ===== src/Execution/Iceberg/Completing.antt =====
-- `executeIceberg` of trading/order/execution.go runs to its end.
use native.Mathlib.Nat.{suc-mul}
use expert_octo_enigma.Prelude.{
  ℕ, zero, suc, ◌+◌, ◌-◌, ◌*◌, ◌≤◌, ◌<◌, String, ◌≡◌, ◌≢◌, refl, ◌∙◌, ap, sym, ◌⊎◌, inl, inr, true,
  false, List, [], ◌∷◌, ◌++◌, map, arith, All, if◌then◌else◌, append-cons, append-nil, ltb,
}
use expert_octo_enigma.Prelude.Int.{negsuc}
use expert_octo_enigma.Float.{Float, nought}
use expert_octo_enigma.Float.Exact.{IsExact, of_ℕ, exact_limit}
use expert_octo_enigma.Orders.{Order, Manager, room, submitted}
use expert_octo_enigma.Orders.Validation.{IsWellFormed}
use expert_octo_enigma.Execution.{
  Config, Engine, Round, finished, slices_of, store_parent, child, iceberg_quantity, iceberg_order,
  left_after, iceberg_round, iceberg_loop, execute_iceberg, slice_of,
}
use expert_octo_enigma.Orders.Submission.{HasRoom}
use expert_octo_enigma.Execution.Placing.{outline, place-outline, place_accepts, place-HasRoom}
use expert_octo_enigma.Execution.Iceberg.{execute_iceberg_loop, iceberg_loop_step}

abbrev pub sum : List ℕ → ℕ
sum [] = 0
sum (n ∷ ns) = n + sum ns

-- The order can be sent as a limit order.
pub record IsLimitable {F : Type 0} ⦃f : Float F⦄ (o : Order F) : Type 0 where
  pub has_symbol : o.symbol ≢ ""
  pub has_side : (o.side ≡ "buy") ⊎ (o.side ≡ "sell")
  pub has_price : f.le o.price nought ≡ false

-- The context does not end, the queue decides each submission, and the rest of the program does not
-- fill it while a submission waits and makes room in it during each sleep.
pub record IsServed {F : Type 0} (rounds : ℕ → Round F) : Type 0 where
  pub alive : (i : ℕ) → (rounds i).cancelled ≡ false
  pub is_ready : (i : ℕ) → (rounds i).ready ≡ room
  pub keeps_room : (i : ℕ) (m : Manager F) → HasRoom m → HasRoom ((rounds i).wait m)
  pub drains : (i : ℕ) (m : Manager F) → 0 < m.max_pending_orders → HasRoom ((rounds i).meanwhile m)

-- The part that a round takes off `n`.
abbrev part : ℕ → ℕ → ℕ
part least n = if ltb n (least * 2) then n else least

-- It is at least the least size and less than two, and leaves nothing or enough for another.
part_bounds :
    (least n : ℕ)
    → 0 < least
    → least ≤ n
    → (least ≤ part least n)
      × (part least n < 2 * least)
      × (part least n ≤ n)
      × ((n - part least n ≡ 0) ⊎ (least ≤ n - part least n))
part_bounds least n p q = ground arith

module _ {F : Type 0} ⦃f : Float F⦄ (exact : IsExact F) (decimal : ℕ → String) where
  pub positive : (k : ℕ) → 0 < k → k ≤ exact_limit → f.le (of_ℕ k) nought ≡ false
  positive k h l = ground (arith, exact.lit_of 0 (omega arith), exact.le_of k 0 l (omega arith))

  iceberg_order-IsWellFormed :
      (o : Order F) (k : ℕ) (r : Round F)
      → IsLimitable o
      → 0 < k
      → k ≤ exact_limit
      → IsWellFormed (iceberg_order decimal o (of_ℕ k) r)
  unfolding iceberg_order child
  iceberg_order-IsWellFormed o k r w h l = record {
    has_symbol = w.has_symbol;
    has_side = w.has_side;
    is_positive = positive k h l;
    is_priced = inr (inl (refl, w.has_price));
  }

  iceberg_quantity-part :
      (least n : ℕ)
      → least * 2 ≤ exact_limit
      → n ≤ exact_limit
      → iceberg_quantity decimal (of_ℕ {F = F} least) (of_ℕ n) ≡ of_ℕ (part least n)
  unfolding iceberg_quantity
  iceberg_quantity-part least n h l =
      ground
        (arith, exact.lit_of 2 (omega arith), exact.mul_of least 2 h, exact.lt_of n (least * 2) l h)

  -- A round of the loop, where the rest is at least the least size.
  iceberg_round_lem :
      (o : Order F) (least n i : ℕ) (r : Round F) (e : Engine F)
      → IsLimitable o
      → 0 < least
      → least ≤ n
      → least * 2 ≤ exact_limit
      → n ≤ exact_limit
      → r.ready ≡ room
      → ((m : Manager F) → HasRoom m → HasRoom (r.wait m))
      → ((m : Manager F) → 0 < m.max_pending_orders → HasRoom (r.meanwhile m))
      → HasRoom e.manager
      → let (rest, e') = iceberg_round decimal o (of_ℕ least) (of_ℕ n) r i e in
        (rest ≡ of_ℕ (n - part least n))
        × HasRoom e'.manager
        × (map outline (slices_of o.id e')
            ≡ map outline (slices_of o.id e) ++ (of_ℕ (part least n), submitted) ∷ [])
  unfolding iceberg_round left_after iceberg_order child
  iceberg_round_lem o least n i r e w p q l m ready keeps_room drains h =
      let k = part least n in
      let (low, high, fits, rest) = part_bounds least n p q in
      let c = iceberg_order decimal o (of_ℕ k) r in
      let s = slice_of decimal o c i (negsuc 0) c.price r in
      let ok =
        place_accepts decimal s c r e
          (iceberg_order-IsWellFormed o k r w (omega (arith, p, low)) (omega (arith, m, fits)))
          ready keeps_room h in
      rw (iceberg_quantity-part least n l m, ok)
        (
          exact.sub_of n k fits m,
          place-HasRoom decimal s c r e keeps_room drains h,
          ground (arith, ok, place-outline decimal s c r e),
        )

  -- What the loop leaves behind: its slices, all submitted, by their sizes.
  pub record Sliced (o : Order F) (least n : ℕ) (before after : Engine F) : Type 0 where
    pub sizes : List ℕ
    pub all_submitted :
        map outline (slices_of o.id after)
        ≡ map outline (slices_of o.id before) ++ map (λ k. (of_ℕ k, submitted)) sizes
    pub total : sum sizes ≡ n
    pub in_range : All (λ k. (least ≤ k) × (k < 2 * least)) sizes

  iceberg_loop_completes :
      (rounds : ℕ → Round F) (o : Order F) (least n fuel i : ℕ) (e : Engine F)
      → IsServed rounds
      → IsLimitable o
      → 0 < least
      → least * 2 ≤ exact_limit
      → n ≤ exact_limit
      → HasRoom e.manager
      → (n ≡ 0) ⊎ (least ≤ n)
      → n ≤ fuel * least
      → (e' : Engine F) × (iceberg_loop decimal rounds o (of_ℕ least) (suc fuel) i (of_ℕ n) e
          ≡ (finished, e'))
        × Sliced o least n e e'
  unfolding iceberg_loop
  iceberg_loop_completes rounds o least zero fuel i e v w p l m h c b = (
    e,
    ground (arith, exact.lit_of 0 (omega arith), exact.lt_of 0 0 (omega arith) (omega arith)),
    record {
      sizes = [];
      all_submitted = sym (append-nil (map outline (slices_of o.id e)));
      total = refl;
      in_range = tt;
    },
  )
  iceberg_loop_completes rounds o least (suc n) zero i e v w p l m h c b = absurd (omega (arith, b))
  iceberg_loop_completes rounds o least (suc n) (suc fuel) i e v w p l m h c b =
      let q : least ≤ suc n = ground (arith, c) in
      let goes_on : f.lt nought (of_ℕ (suc n)) ≡ true =
        ground (arith, exact.lit_of 0 (omega arith), exact.lt_of 0 (suc n) (omega arith) m) in
      let (low, high, fits, rest) = part_bounds least (suc n) p q in
      let (left, e1) = iceberg_round decimal o (of_ℕ least) (of_ℕ (suc n)) (rounds i) i e in
      let (a, h', t) =
        iceberg_round_lem o least (suc n) i (rounds i) e w p q l m (v.is_ready i) (v.keeps_room i)
          (v.drains i) h in
      let (e2, r, z) =
        iceberg_loop_completes rounds o least (suc n - part least (suc n)) fuel (i + 1) e1 v w p l
          (omega (arith, m)) h' rest (ground (arith, b, low, fits, suc-mul fuel least)) in
      (
        e2,
        iceberg_loop_step decimal rounds o (of_ℕ least) (of_ℕ (suc n)) (suc fuel) i e goes_on
              (v.alive i)
            ∙ ap (λ x. iceberg_loop decimal rounds o (of_ℕ least) (suc fuel) (i + 1) x e1) a
            ∙ r,
        record {
          sizes = part least (suc n) ∷ z.sizes;
          all_submitted =
              z.all_submitted
              ∙ ap (λ xs. xs ++ map (λ k. (of_ℕ k, submitted)) z.sizes) t
              ∙ sym (
                  append-cons (map outline (slices_of o.id e))
                    (map (λ k. (of_ℕ k, submitted)) z.sizes)
                    (of_ℕ (part least (suc n)), submitted));
          total = ground (arith, z.total, fits);
          in_range = ((low, high), z.in_range);
        },
      )

  -- An order of n whole shares, at least the least size, that can be sent as a limit order is executed
  -- to the end where the context lasts, the queue decides each submission, is not filled while one
  -- waits, and is drained during each sleep: with a fuel of one more than a number of rounds that, times
  -- the least size, reaches n, the slices, all submitted, add up to n, each of at least the least size
  -- and of less than two of it.
  pub iceberg_completes :
      (rounds : ℕ → Round F) (p : ℕ) (o : Order F) (c : Config F) (least n fuel : ℕ) (e : Engine F)
      → IsServed rounds
      → IsLimitable o
      → c.min_slice_size ≡ of_ℕ least
      → o.quantity ≡ of_ℕ n
      → 0 < least
      → least ≤ n
      → least * 2 ≤ exact_limit
      → n ≤ exact_limit
      → HasRoom e.manager
      → n ≤ fuel * least
      → (e' : Engine F) × (execute_iceberg decimal rounds (suc fuel) p o c e ≡ (finished, e'))
        × Sliced o least n e e'
  unfolding execute_iceberg
  iceberg_completes rounds p o c least n fuel e v w s q h k l m place_left b =
      let (e', r, z) =
        iceberg_loop_completes rounds o least n fuel 0 (store_parent o e) v w h l m place_left
          (inr k) b in
      (
        e',
        execute_iceberg_loop decimal rounds (suc fuel) p o c e (of_ℕ least)
              (ground (
                arith,
                s,
                h,
                exact.lit_of 0 (omega arith),
                exact.eq_of least 0 (omega (arith, l)) (omega arith),
              ))
              (ground (arith, q, k, exact.lt_of n least m (omega (arith, l))))
            ∙ ap (λ x. iceberg_loop decimal rounds o (of_ℕ least) (suc fuel) 0 x (store_parent o e))
                q
            ∙ r,
        record {
          sizes = z.sizes;
          all_submitted = z.all_submitted;
          total = z.total;
          in_range = z.in_range;
        },
      )
