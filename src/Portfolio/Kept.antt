-- ===== src/Portfolio/Kept.antt =====
-- What UpdatePositions of trading/portfolio/portfolio_manager.go does to the positions.
use expert_octo_enigma.Prelude.{
  ℕ, String, ◌≡◌, refl, ap, sym, ◌∙◌, Bool-cases, inl, inr, true, false, Option, none, some, List,
  [], ◌∷◌, arith, str_eq, All, length, if◌then◌else◌,
}
use expert_octo_enigma.Table.{Table, lookup, insert, values, lookup-insert, lookup-insert_self}
use expert_octo_enigma.Float.{Float}
use expert_octo_enigma.Lock.{done, free}
use expert_octo_enigma.Positions.{Positions, PositionState, get_all_positions}
use expert_octo_enigma.Portfolio.{PortfolioPosition, PortfolioManager}
use expert_octo_enigma.Portfolio.Updating.{
  store_position, store_all, portfolio_position, weight_of, extend_history, update_positions,
  updated, due, at_most_100,
}

module _ {F : Type 0} ⦃f : Float F⦄ where
  stored : ℕ → F → PositionState F → PortfolioPosition F
  stored now total s = record (portfolio_position now (weight_of total s) s) {
    weight_history =
        record { timestamp = now; weight = weight_of total s; value = s.market_value } ∷ [];
  }

  lookup-store_position :
      (now : ℕ) (total : F) (s : PositionState F) (ps : Table (PortfolioPosition F))
      (symbol : String)
      → lookup symbol (store_position now total s ps)
        ≡ (if str_eq s.symbol symbol then some (stored now total s) else lookup symbol ps)
  unfolding store_position stored portfolio_position extend_history due at_most_100
  lookup-store_position now total s ps symbol =
      rw
        (
          store_position,
          lookup-insert_self s.symbol (portfolio_position now (weight_of total s) s) ps,
        )
        (lookup-insert s.symbol symbol (stored now total s)
            (insert s.symbol (portfolio_position now (weight_of total s) s) ps)
          ∙ ground (
            arith,
            lookup-insert s.symbol symbol (portfolio_position now (weight_of total s) s) ps,
          ))

  lookup-store_all :
      (now : ℕ) (total : F) (ss : List (PositionState F)) (ps : Table (PortfolioPosition F))
      (symbol : String)
      → All (λ s. str_eq s.symbol symbol ≡ false) ss
      → lookup symbol (store_all now total ss ps) ≡ lookup symbol ps
  unfolding store_all
  lookup-store_all now total [] ps symbol h = refl
  lookup-store_all now total (s ∷ ss) ps symbol h =
      lookup-store_all now total ss (store_position now total s ps) symbol h.1
      ∙ ground (arith, h.0, lookup-store_position now total s ps symbol)

  -- Each position has one point of history.
  abbrev pub HasOnePoint : Table (PortfolioPosition F) → Type 0
  HasOnePoint ps =
      (symbol : String) (q : PortfolioPosition F)
      → lookup symbol ps ≡ some q
      → length q.weight_history ≡ 1

  store_position-HasOnePoint :
      (now : ℕ) (total : F) (s : PositionState F) (ps : Table (PortfolioPosition F))
      → HasOnePoint ps
      → HasOnePoint (store_position now total s ps)
  unfolding stored
  store_position-HasOnePoint now total s ps h symbol q e =
      elim (Bool-cases (str_eq s.symbol symbol)) [
        | inl b ↦
            let same : some (stored now total s) ≡ some q =
              ground (arith, b, e, lookup-store_position now total s ps symbol) in
            sym (
              ap
                (λ (o : Option (PortfolioPosition F)). elim o [
                  | none ↦ 1
                  | some x ↦ length x.weight_history
                ])
                same)
        | inr b ↦ h symbol q (ground (arith, b, e, lookup-store_position now total s ps symbol))
      ]

  pub store_all-HasOnePoint :
      (now : ℕ) (total : F) (ss : List (PositionState F)) (ps : Table (PortfolioPosition F))
      → HasOnePoint ps
      → HasOnePoint (store_all now total ss ps)
  unfolding store_all
  store_all-HasOnePoint now total [] ps h = h
  store_all-HasOnePoint now total (s ∷ ss) ps h =
      store_all-HasOnePoint now total ss (store_position now total s ps)
        (store_position-HasOnePoint now total s ps h)

  -- When the position manager is free and none of the positions that it holds has the symbol, the
  -- update of the portfolio returns success, and the portfolio has for the symbol what it had before.
  pub sold_stays :
      (pow : F → F → F) (sqrt : F → F) (days : F) (now : ℕ) (p : PortfolioManager F)
      (held : Positions F) (symbol : String)
      → p.position_manager ≡ some (record { mu = free; inner = held })
      → All (λ s. str_eq s.symbol symbol ≡ false) (values held)
      → (q : PortfolioManager F) × (update_positions pow sqrt days now p ≡ done (true, q))
        × (lookup symbol q.positions ≡ lookup symbol p.positions)
  unfolding update_positions updated get_all_positions
  sold_stays pow sqrt days now p held symbol g h =
      rw g (_, refl, lookup-store_all now _ (values held) p.positions symbol h)
