-- ===== src/Positions/Holdings.antt =====
-- The amounts that trading/position_manager.go keeps, against a ledger of the trades.
use expert_octo_enigma.Prelude.{
  ℕ, String, ◌≡◌, refl, ap, ◌∙◌, inl, inr, Bool, true, false, ◌||◌, Option, none, some, List, [],
  ◌∷◌, arith, if◌then◌else◌, All, str_eq, eq_iff, Bool-cases, Option-cases,
}
use expert_octo_enigma.Prelude.Int.{ℤ, pos, ◌+ℤ◌, ◌-ℤ◌, ltb_ℤ, eq_of_parts, +ℤ_parts, -ℤ_parts}
use expert_octo_enigma.Table.{
  lookup, insert, delete, Distinct, lookup-insert, lookup-delete, insert-Distinct, delete-Distinct,
}
use expert_octo_enigma.Float.{Float}
use expert_octo_enigma.Lock.{Method, done, free, pure, ◌>>◌}
use expert_octo_enigma.Positions.{
  PositionState, Positions, Trade, apply_trade, buy, sell, update_position, bought_more, opened,
  sold_part, reprice,
}

-- The sign of a trade.
abbrev pub is_buy : String → Bool
is_buy type = str_eq type "买入" || str_eq type "buy"

abbrev pub is_sell : String → Bool
is_sell type = str_eq type "卖出" || str_eq type "sell"

-- A holding after a trade in it: a purchase adds, a sale takes away and stops at nothing.
unfoldable pub settle : {F : Type 0} → Trade F → ℤ → ℤ
settle t held =
    if is_buy t.type
    then held +ℤ t.amount
    else if is_sell t.type
    then if ltb_ℤ (pos 0) (held -ℤ t.amount) then held -ℤ t.amount else pos 0
    else held

-- The holding of one symbol after the trades, from one before them.
unfoldable pub ledger : {F : Type 0} → String → List (ℕ × Trade F) → ℤ → ℤ
ledger symbol [] held = held
ledger symbol ((now, t) ∷ ts) held =
    ledger symbol ts (if str_eq t.symbol symbol then settle t held else held)

abbrev amount_or : {F : Type 0} → Option (PositionState F) → ℤ
amount_or none = pos 0
amount_or (some p) = p.amount

plus_zero : (a : ℤ) → pos 0 +ℤ a ≡ a
plus_zero a = eq_of_parts (pos 0 +ℤ a) a (omega (arith, +ℤ_parts (pos 0) a))

sold_nothing : (a : ℤ) → ltb_ℤ a (pos 0) ≡ false → ltb_ℤ (pos 0) (pos 0 -ℤ a) ≡ false
sold_nothing a h = ground (arith, h, -ℤ_parts (pos 0) a)

sum_positive :
    (a b : ℤ) → ltb_ℤ (pos 0) a ≡ true → ltb_ℤ (pos 0) b ≡ true → ltb_ℤ (pos 0) (a +ℤ b) ≡ true
sum_positive a b h k = ground (arith, h, k, +ℤ_parts a b)

module _ {F : Type 0} ⦃f : Float F⦄ where
  -- What is held of a symbol: nothing without a position.
  unfoldable pub amount_at : String → Positions F → ℤ
  amount_at symbol m = amount_or (lookup symbol m)

  -- `UpdatePosition` for each trade, one after another.
  unfoldable pub update_all : List (ℕ × Trade F) → Method (Positions F) (Unit {0})
  unfolding update_position
  update_all [] = pure tt
  update_all ((now, t) ∷ ts) = let rest = update_all ts in update_position now t >> rest

  buy_amount :
      (now : ℕ) (t : Trade F) (symbol : String) (m : Positions F)
      → amount_at symbol (buy now t m)
        ≡ (if str_eq t.symbol symbol then amount_at symbol m +ℤ t.amount else amount_at symbol m)
  unfolding amount_at buy bought_more opened reprice
  buy_amount now t symbol m = elim (Option-cases (lookup t.symbol m)) [
    | inl e ↦ ground (
      arith,
      e,
      lookup-insert t.symbol symbol (opened now t) m,
      eq_iff t.symbol symbol,
      plus_zero t.amount,
    )
    | inr (p, e) ↦
        ground
          (arith, e, lookup-insert t.symbol symbol (bought_more now t p) m, eq_iff t.symbol symbol)
  ]

  sell_amount :
      (now : ℕ) (t : Trade F) (symbol : String) (m : Positions F)
      → ltb_ℤ t.amount (pos 0) ≡ false
      → amount_at symbol (sell now t m) ≡ (
          if str_eq t.symbol symbol
          then if ltb_ℤ (pos 0) (amount_at symbol m -ℤ t.amount)
            then amount_at symbol m -ℤ t.amount
            else pos 0
          else amount_at symbol m)
  unfolding amount_at sell sold_part reprice
  sell_amount now t symbol m h = elim (Option-cases (lookup t.symbol m)) [
    | inl e ↦ ground (arith, e, eq_iff t.symbol symbol, sold_nothing t.amount h)
    | inr (p, e) ↦ ground (
      arith,
      e,
      lookup-insert t.symbol symbol (reprice now t.price (sold_part t p)) m,
      lookup-delete t.symbol symbol m,
      eq_iff t.symbol symbol,
    )
  ]

  pub trade_amount :
      (now : ℕ) (t : Trade F) (symbol : String) (m : Positions F)
      → ltb_ℤ t.amount (pos 0) ≡ false
      → amount_at symbol (apply_trade now t m)
        ≡ (if str_eq t.symbol symbol then settle t (amount_at symbol m) else amount_at symbol m)
  unfolding apply_trade settle
  trade_amount now t symbol m h =
      ground (arith, buy_amount now t symbol m, sell_amount now t symbol m h)

  -- Over every sequence of trades of which no amount is negative, `UpdatePosition` returns each time, and
  -- what is held of a symbol in the end is what a ledger of the trades in that symbol says: a purchase
  -- adds its amount, a sale takes its amount away but not below nothing, another trade does nothing.
  pub update_all-ledger :
      (symbol : String) (ts : List (ℕ × Trade F)) (m : Positions F)
      → All (λ t. ltb_ℤ t.1.amount (pos 0) ≡ false) ts
      → (n : Positions F) × (update_all ts (record { mu = free; inner = m })
          ≡ done (tt, record { mu = free; inner = n }))
        × (amount_at symbol n ≡ ledger symbol ts (amount_at symbol m))
  unfolding update_all update_position ledger
  update_all-ledger symbol [] m a = (m, refl, refl)
  update_all-ledger symbol ((now, t) ∷ ts) m a =
      let k = apply_trade now t m in
      let (n, r, e) = update_all-ledger symbol ts k a.1 in
      (n, r, e ∙ ap (ledger symbol ts) (trade_amount now t symbol m a.0))

  -- Each position stands once, under its own symbol, and holds something.
  pub record IsValid (m : Positions F) : Type 0 where
    pub distinct : Distinct m
    pub own : All (λ e. (e.0 ≡ e.1.symbol) × (ltb_ℤ (pos 0) e.1.amount ≡ true)) m

  own-insert :
      (k : String) (p : PositionState F) (m : Positions F)
      → (k ≡ p.symbol) × (ltb_ℤ (pos 0) p.amount ≡ true)
      → All (λ e. (e.0 ≡ e.1.symbol) × (ltb_ℤ (pos 0) e.1.amount ≡ true)) m
      → All (λ e. (e.0 ≡ e.1.symbol) × (ltb_ℤ (pos 0) e.1.amount ≡ true)) (insert k p m)
  unfolding insert
  own-insert k p [] e a = (e, tt)
  own-insert k p ((j, q) ∷ m) e a = ground (arith, own-insert k p m e a.1, eq_iff j k)

  own-delete :
      (k : String) (m : Positions F)
      → All (λ e. (e.0 ≡ e.1.symbol) × (ltb_ℤ (pos 0) e.1.amount ≡ true)) m
      → All (λ e. (e.0 ≡ e.1.symbol) × (ltb_ℤ (pos 0) e.1.amount ≡ true)) (delete k m)
  unfolding delete
  own-delete k [] a = tt
  own-delete k ((j, q) ∷ m) a = ground (arith, own-delete k m a.1)

  own-lookup :
      (k : String) (p : PositionState F) (m : Positions F)
      → All (λ e. (e.0 ≡ e.1.symbol) × (ltb_ℤ (pos 0) e.1.amount ≡ true)) m
      → lookup k m ≡ some p
      → (k ≡ p.symbol) × (ltb_ℤ (pos 0) p.amount ≡ true)
  unfolding lookup
  own-lookup k p [] a e = ground arith
  own-lookup k p ((j, q) ∷ m) a e = ground (arith, own-lookup k p m a.1, eq_iff j k)

  buy-IsValid :
      (now : ℕ) (t : Trade F) (m : Positions F)
      → ltb_ℤ (pos 0) t.amount ≡ true
      → IsValid m
      → IsValid (buy now t m)
  unfolding buy bought_more opened reprice
  buy-IsValid now t m h v = elim (Option-cases (lookup t.symbol m)) [
    | inl e ↦
        rw (buy, e)
          (record {
            distinct = insert-Distinct t.symbol (opened now t) m v.distinct;
            own = own-insert t.symbol (opened now t) m (refl, h) v.own;
          })
    | inr (p, e) ↦
        let (s, a) = own-lookup t.symbol p m v.own e in
        rw (buy, e)
          (record {
            distinct = insert-Distinct t.symbol (bought_more now t p) m v.distinct;
            own =
                own-insert t.symbol (bought_more now t p) m (s, sum_positive p.amount t.amount a h)
                  v.own;
          })
  ]

  sell-IsValid : (now : ℕ) (t : Trade F) (m : Positions F) → IsValid m → IsValid (sell now t m)
  unfolding sell sold_part reprice
  sell-IsValid now t m v = elim (Option-cases (lookup t.symbol m)) [
    | inl e ↦ rw (sell, e) v
    | inr (p, e) ↦
        let q = reprice now t.price (sold_part t p) in
        let (s, a) = own-lookup t.symbol p m v.own e in
        elim (Bool-cases (ltb_ℤ (pos 0) (p.amount -ℤ t.amount))) [
          | inl b ↦
              rw (sell, e, b)
                (record {
                  distinct = insert-Distinct t.symbol q m v.distinct;
                  own = own-insert t.symbol q m (s, b) v.own;
                })
          | inr b ↦
              rw (sell, e, b)
                (record {
                  distinct = delete-Distinct t.symbol m v.distinct;
                  own = own-delete t.symbol m v.own;
                })
        ]
  ]

  -- A trade of a positive amount keeps each position once and under its own symbol, and no position is
  -- left that holds nothing.
  pub update_position-IsValid :
      (now : ℕ) (t : Trade F) (m : Positions F)
      → ltb_ℤ (pos 0) t.amount ≡ true
      → IsValid m
      → (n : Positions F) × (update_position now t (record { mu = free; inner = m })
          ≡ done (tt, record { mu = free; inner = n }))
        × IsValid n
  unfolding update_position apply_trade
  update_position-IsValid now t m h v = (
    apply_trade now t m,
    refl,
    ground (arith, v, buy-IsValid now t m h v, sell-IsValid now t m v),
  )
