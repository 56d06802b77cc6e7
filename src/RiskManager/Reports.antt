-- ===== src/RiskManager/Reports.antt =====
-- What the reports of trading/risk_manager.go say after an update.
use expert_octo_enigma.Prelude.{◌≡◌, refl, Option, some, List}
use expert_octo_enigma.Float.{Float}
use expert_octo_enigma.Lock.{done, free}
use expert_octo_enigma.RiskManager.{
  RiskManager, RiskMetrics, PortfolioSummary, DailyPnl, Balance, Position, update_daily_pnl,
  get_risk_metrics, get_portfolio_summary,
}

module _ {F : Type 0} ⦃f : Float F⦄ where
  -- After `UpdateDailyPnL` at some balance, which returns the profit since the start of the day,
  -- `GetRiskMetrics` and `GetPortfolioSummary` at the same balance return and agree: on the total, on that
  -- profit and on its percentage.
  pub update_then_agree :
      (b : Balance F) (positions : Option (List (Position F))) (m : RiskManager F)
      → (n : RiskManager F) × (row : Option (DailyPnl F)) × (x : RiskMetrics F)
        × (y : PortfolioSummary F) × (update_daily_pnl (some b) (record { mu = free; inner = m })
            ≡ done (
              some (f.sub b.total_assets m.daily_start_equity, row),
              record { mu = free; inner = n },
            ))
        × (get_risk_metrics (some b) positions (record { mu = free; inner = n })
            ≡ done (x, record { mu = free; inner = n }))
        × (get_portfolio_summary (some b) (record { mu = free; inner = n })
            ≡ done (y, record { mu = free; inner = n }))
        × (x.daily_pnl ≡ f.sub b.total_assets m.daily_start_equity)
        × (x.daily_pnl ≡ y.daily_pnl)
        × (x.daily_pnl_percent ≡ y.daily_pnl_percent)
        × (x.current_equity ≡ y.total_value)
  unfolding update_daily_pnl get_risk_metrics get_portfolio_summary
  update_then_agree b positions m = (
    record m { daily_pnl = f.sub b.total_assets m.daily_start_equity },
    _,
    _,
    _,
    refl,
    refl,
    refl,
    refl,
    refl,
    refl,
    refl,
  )
