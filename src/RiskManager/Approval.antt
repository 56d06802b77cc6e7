-- ===== src/RiskManager/Approval.antt =====
-- Which orders `CheckBeforeOrder` of trading/risk_manager.go lets through, and that it can wait for ever.
use expert_octo_enigma.Prelude.{
  ◌<◌, String, ◌≡◌, ◌⊎◌, inl, inr, ◌↔◌, true, false, Option, none, some, List, [], ◌∷◌, arith,
  if◌then◌else◌, length, str_eq, Bool-cases, Option-cases,
}
use expert_octo_enigma.Float.{Float}
use expert_octo_enigma.Lock.{Guarded, done, blocked, free}
use expert_octo_enigma.RiskManager.{
  RiskManager, RiskError, Answers, OrderRequest, Balance, Position, check_before_order,
  check_amounts, check_buy_order, check_positions, check_daily_loss, exceeds_daily_loss,
  max_single_amount,
}

module _ {F : Type 0} ⦃f : Float F⦄ where
  -- The first position in the symbol.
  pub held : String → List (Position F) → Option (Position F)
  held symbol [] = none
  held symbol (p ∷ ps) =
      let rest = held symbol ps in if str_eq p.symbol symbol then some p else rest

  -- Room for the order beside a position in its symbol, or for one more position.
  abbrev Room : RiskManager F → OrderRequest F → List (Position F) → Option (Position F) → Type 0
  Room m order ps none = length ps < m.config.max_positions
  Room m order ps (some p) =
      f.lt (max_single_amount m)
        (f.add (f.mul (f.of_int p.amount) p.current_price) (f.of_int order.amount))
      ≡ false

  pub BuyApproved : Answers F → OrderRequest F → RiskManager F → Type 0
  unfolding held
  BuyApproved answers order m =
      (b : Balance F) × (ps : List (Position F)) × (answers.second_balance ≡ some b)
      × (answers.positions ≡ some ps)
      × (f.lt b.available_cash (f.of_int order.amount) ≡ false)
      × (f.lt (max_single_amount m) (f.of_int order.amount) ≡ false)
      × Room m order ps (held order.symbol ps)

  pub Approved : Answers F → OrderRequest F → RiskManager F → Type 0
  Approved answers order m =
      (b : Balance F) × (m.emergency_stop ≡ false)
      × (answers.balance ≡ some b)
      × (exceeds_daily_loss m b ≡ false)
      × (f.lt (f.of_int order.amount) m.config.min_order_amount ≡ false)
      × ((str_eq order.type "buy" ≡ false) ⊎ BuyApproved answers order m)

  check_positions_iff :
      (m : RiskManager F) (order : OrderRequest F) (all ps : List (Position F))
      → (check_positions m order all ps ≡ none) ↔ Room m order all (held order.symbol ps)
  unfolding check_positions held
  check_positions_iff m order all [] = (λ e. ground (arith, e), λ e. ground (arith, e))
  check_positions_iff m order all (p ∷ ps) = elim (Bool-cases (str_eq p.symbol order.symbol)) [
    | inl e ↦ rw e (λ z. ground (arith, z), λ z. ground (arith, z))
    | inr e ↦ rw e (check_positions_iff m order all ps)
  ]

  buy_iff :
      (answers : Answers F) (order : OrderRequest F) (m : RiskManager F)
      → (check_buy_order answers order m ≡ none) ↔ BuyApproved answers order m
  unfolding check_buy_order BuyApproved
  buy_iff answers order m = (
    λ e. elim (Option-cases answers.second_balance) [
      | inl s ↦ absurd (ground (arith, e, s))
      | inr (b, s) ↦ elim (Option-cases answers.positions) [
        | inl p ↦ absurd (ground (arith, e, s, p))
        | inr (ps, p) ↦ (
          b,
          ps,
          s,
          p,
          ground (arith, e, s, p),
          ground (arith, e, s, p),
          (check_positions_iff m order ps ps).0 (ground (arith, e, s, p)),
        )
      ]
    ],
    λ h.
        let (b, ps, s, p, c, x, r) = h in
        ground (arith, s, p, c, x, (check_positions_iff m order ps ps).1 r),
  )

  amounts_iff :
      (answers : Answers F) (order : OrderRequest F) (m : RiskManager F)
      → (check_amounts answers order m ≡ none) ↔ (
          (f.lt (f.of_int order.amount) m.config.min_order_amount ≡ false)
          × ((str_eq order.type "buy" ≡ false) ⊎ BuyApproved answers order m))
  unfolding check_amounts
  amounts_iff answers order m =
      let z = buy_iff answers order m in
      (
        λ e. (
          ground (arith, e),
          elim (Bool-cases (str_eq order.type "buy")) [
            | inl t ↦ inr (z.0 (ground (arith, e, t)))
            | inr t ↦ inl t
          ],
        ),
        λ e. ground (arith, e, z),
      )

  -- `CheckBeforeOrder` on a free lock lets an order through, with the manager unchanged and the lock free,
  -- exactly if there is no emergency stop, the balance is known, the day's loss is not over the limit and
  -- the amount is not below the minimum; and, for a purchase, if the second balance and the positions are
  -- known, the amount is not over the cash nor over the most that one symbol may hold, and it stays
  -- within that most together with the first position in the symbol or, where there is none, there are
  -- fewer positions than the configuration allows.
  pub check_before_order_iff :
      (answers : Answers F) (order : OrderRequest F) (m : RiskManager F)
      → (check_before_order answers order (record { mu = free; inner = m })
          ≡ done (none, record { mu = free; inner = m }))
        ↔ Approved answers order m
  unfolding check_before_order check_daily_loss Approved
  check_before_order_iff answers order m =
      let z = amounts_iff answers order m in
      elim (Option-cases answers.balance) [
        | inl b ↦ (λ e. absurd (ground (arith, e, b)), λ h. absurd (ground (arith, h.2, b)))
        | inr (b, g) ↦ (
          λ e. (
            b,
            ground (arith, e, g),
            g,
            ground (arith, e, g),
            (z.0 (ground (arith, e, g))).0,
            (z.0 (ground (arith, e, g))).1,
          ),
          λ h. let (b', s, g', x, n, t) = h in ground (arith, s, g', x, z.1 (n, t)),
        )
      ]

  -- With no emergency stop and a day's loss over the limit, `CheckBeforeOrder` on a free lock waits for
  -- ever for its own lock: no error is returned and the emergency stop is never set.
  pub check_before_order_blocks :
      (answers : Answers F) (order : OrderRequest F) (m : RiskManager F) (b : Balance F)
      → m.emergency_stop ≡ false
      → answers.balance ≡ some b
      → exceeds_daily_loss m b ≡ true
      → check_before_order answers order (record { mu = free; inner = m }) ≡ blocked
  unfolding check_before_order check_daily_loss
  check_before_order_blocks answers order m b s g x = ground (arith, s, g, x)

  -- A check that returns has changed nothing.
  pub check_before_order_keeps :
      (answers : Answers F) (order : OrderRequest F) (m : RiskManager F)
      (r : Option RiskError × Guarded (RiskManager F))
      → check_before_order answers order (record { mu = free; inner = m }) ≡ done r
      → r.1 ≡ record { mu = free; inner = m }
  unfolding check_before_order check_daily_loss
  check_before_order_keeps answers order m r e = elim (Option-cases answers.balance) [
    | inl b ↦ ground (arith, e, b)
    | inr (b, g) ↦ ground (arith, e, g)
  ]
