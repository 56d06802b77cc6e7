-- ===== src/RiskManager/Emergency.antt =====
-- The emergency stop of trading/risk_manager.go over the calls on the manager.
use expert_octo_enigma.Prelude.{
  ◌≡◌, refl, inl, Bool, true, false, not, Option, none, some, List, [], ◌∷◌, arith, All,
}
use expert_octo_enigma.Float.{Float}
use expert_octo_enigma.Lock.{Method, done, free, pure, ◌>>=◌, ◌>>◌}
use expert_octo_enigma.RiskManager.{
  RiskManager, Answers, OrderRequest, Balance, Position, check_before_order, check_position_loss,
  update_daily_pnl, reset_daily, set_emergency_stop, get_risk_metrics, get_portfolio_summary,
  emergency_stopped,
}

pub data Call (F : Type 0) : Type 0 where
  checks : Answers F → OrderRequest F → Call F
  checks_losses : Option (List (Position F)) → Call F
  updates resets summarizes : Option (Balance F) → Call F
  measures : Option (Balance F) → Option (List (Position F)) → Call F
  sets_stop : Bool → Call F

module _ {F : Type 0} ⦃f : Float F⦄ where
  abbrev ignore : {A : Type 0} → Method (RiskManager F) A → Method (RiskManager F) (Unit {0})
  ignore m = m >>= λ _. pure tt

  unfoldable pub perform : Call F → Method (RiskManager F) (Unit {0})
  unfolding check_before_order check_position_loss update_daily_pnl reset_daily set_emergency_stop
      get_risk_metrics get_portfolio_summary
  perform (checks answers order) = ignore (check_before_order answers order)
  perform (checks_losses positions) = ignore (check_position_loss positions)
  perform (updates balance) = ignore (update_daily_pnl balance)
  perform (resets balance) = reset_daily balance
  perform (summarizes balance) = ignore (get_portfolio_summary balance)
  perform (measures balance positions) = ignore (get_risk_metrics balance positions)
  perform (sets_stop stop) = set_emergency_stop stop

  -- The calls, one after another.
  unfoldable pub run : List (Call F) → Method (RiskManager F) (Unit {0})
  unfolding perform
  run [] = pure tt
  run (c ∷ cs) = let rest = run cs in perform c >> rest

  -- A call that takes the emergency stop back.
  abbrev pub lifts : Call F → Bool
  lifts (resets balance) = true
  lifts (sets_stop stop) = not stop
  lifts _ = false

  stays :
      (c : Call F) (m : RiskManager F)
      → lifts c ≡ false
      → m.emergency_stop ≡ true
      → (n : RiskManager F) × (perform c (record { mu = free; inner = m })
          ≡ done (tt, record { mu = free; inner = n }))
        × (n.emergency_stop ≡ true)
  unfolding perform check_before_order check_position_loss update_daily_pnl set_emergency_stop
      get_risk_metrics get_portfolio_summary
  stays (checks answers order) m l e = (m, ground (arith, e), e)
  stays (checks_losses positions) m l e = (m, ground (arith, e), e)
  stays (updates none) m l e = (m, refl, e)
  stays (updates (some b)) m l e =
      (record m { daily_pnl = f.sub b.total_assets m.daily_start_equity }, refl, e)
  stays (resets balance) m l e = absurd (ground (arith, l))
  stays (summarizes balance) m l e = (m, ground (arith, e), e)
  stays (measures balance positions) m l e = (m, refl, e)
  stays (sets_stop true) m l e = (record m { emergency_stop = true }, refl, refl)
  stays (sets_stop false) m l e = absurd (ground (arith, l))

  -- From an emergency stop on, over every sequence of calls of which none resets the day or takes the stop
  -- back, every call returns with the lock free; and then every order is refused because of the stop, as
  -- is the check of the positions, and the manager is unchanged by them.
  pub emergency_refuses :
      (cs : List (Call F)) (answers : Answers F) (order : OrderRequest F)
      (positions : Option (List (Position F))) (m : RiskManager F)
      → All (λ c. lifts c ≡ false) cs
      → m.emergency_stop ≡ true
      → (n : RiskManager F) × (run cs (record { mu = free; inner = m })
          ≡ done (tt, record { mu = free; inner = n }))
        × (check_before_order answers order (record { mu = free; inner = n })
            ≡ done (some emergency_stopped, record { mu = free; inner = n }))
        × (check_position_loss positions (record { mu = free; inner = n })
            ≡ done (inl emergency_stopped, record { mu = free; inner = n }))
  unfolding run check_before_order check_position_loss
  emergency_refuses [] answers order positions m a e =
      (m, refl, ground (arith, e), ground (arith, e))
  emergency_refuses (c ∷ cs) answers order positions m a e =
      let (k, g, h) = stays c m a.0 e in
      let (n, r, x, y) = emergency_refuses cs answers order positions k a.1 h in
      (n, ground (arith, g, r), x, y)
