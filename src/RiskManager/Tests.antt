-- ===== src/RiskManager/Tests.antt =====
-- Runs of the risk manager of trading/risk_manager.go, on whole amounts.
use expert_octo_enigma.Prelude.{ℕ, ◌≡◌, refl, inl, ◌↔◌, true, false, none, some, List, [], ◌∷◌}
use expert_octo_enigma.Prelude.Int.{ℤ, pos, ◌-ℤ◌}
use expert_octo_enigma.Float.Signed.{signed}
use expert_octo_enigma.Lock.{done, blocked, free}
use expert_octo_enigma.RiskManager.{
  RiskManager, RiskError, RiskConfig, Answers, OrderRequest, Balance, Position, DailyPnl,
  RiskMetrics, PortfolioSummary, check_before_order, check_position_loss, exceeds_daily_loss,
  loss_percent, update_daily_pnl, get_risk_metrics, get_portfolio_summary, emergency_stopped,
}
use expert_octo_enigma.RiskManager.Approval.{
  Approved, check_before_order_iff, check_before_order_blocks,
}
use expert_octo_enigma.RiskManager.Emergency.{
  Call, checks, checks_losses, sets_stop, run, emergency_refuses,
}

abbrev manager : RiskManager ℤ
manager = record {
  config = record {
    initial_capital = pos 1000;
    max_single_position = pos 1;
    max_positions = 3;
    max_daily_loss = pos 0;
    min_order_amount = pos 100;
    stop_loss_percent = pos 0;
  };
  has_history = true;
  daily_pnl = pos 0;
  daily_start_equity = pos 100;
  emergency_stop = false;
}

abbrev balance : ℕ → Balance ℤ
balance total = record { total_assets = pos total; available_cash = pos 500 }

abbrev answers : ℕ → Answers ℤ
answers total = record {
  balance = some (balance total);
  second_balance = some (balance total);
  positions = some [];
}

abbrev order : OrderRequest ℤ
order = record { type = "buy"; symbol = "sh600000"; price = pos 10; amount = pos 200 }

test_approved :
    check_before_order (answers 1000) order (record { mu = free; inner = manager })
    ≡ done (none, record { mu = free; inner = manager })
unfolding check_before_order exceeds_daily_loss ◌-ℤ◌ expert_octo_enigma.RiskManager.check_amounts
    expert_octo_enigma.RiskManager.max_single_amount expert_octo_enigma.RiskManager.check_positions
test_approved = refl

check_before_order_iff_example :
    (check_before_order (answers 1000) order (record { mu = free; inner = manager })
      ≡ done (none, record { mu = free; inner = manager }))
    ↔ Approved (answers 1000) order manager
check_before_order_iff_example = check_before_order_iff (answers 1000) order manager

check_before_order_blocks_example :
    check_before_order (answers 0) order (record { mu = free; inner = manager }) ≡ blocked
unfolding exceeds_daily_loss ◌-ℤ◌
check_before_order_blocks_example =
    check_before_order_blocks (answers 0) order manager (balance 0) refl refl refl

abbrev calls_of : List (Call ℤ)
calls_of = checks (answers 0) order ∷ sets_stop true ∷ checks_losses none ∷ []

emergency_refuses_example :
    (n : RiskManager ℤ) × (run calls_of
        (record { mu = free; inner = record manager { emergency_stop = true } })
      ≡ done (tt, record { mu = free; inner = n }))
    × (check_before_order (answers 1000) order (record { mu = free; inner = n })
        ≡ done (some emergency_stopped, record { mu = free; inner = n }))
    × (check_position_loss (some []) (record { mu = free; inner = n })
        ≡ done (inl emergency_stopped, record { mu = free; inner = n }))
emergency_refuses_example =
    emergency_refuses calls_of (answers 1000) order (some [])
      (record manager { emergency_stop = true }) (refl, (refl, (refl, tt))) refl
