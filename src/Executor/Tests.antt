-- ===== src/Executor/Tests.antt =====
-- Runs of the order executor of trading/order_executor.go, on whole amounts.
use expert_octo_enigma.Prelude.{
  ℕ, String, ◌≡◌, refl, ◌⊎◌, inl, inr, ◌++◌, Bool, true, false, Option, none, some, List, [], ◌∷◌,
  arith, eq_iff,
}
use expert_octo_enigma.Prelude.Int.{ℤ, pos, ltb_ℤ}
use expert_octo_enigma.Float.Signed.{signed}
use expert_octo_enigma.Lock.{free}
use expert_octo_enigma.RiskManager.{RiskManager, Answers}
use expert_octo_enigma.RiskManager.Approval.{Approved}
use expert_octo_enigma.Positions.{Trade}
use expert_octo_enigma.Executor.{Executor, Broker, execute_buy, buy_request, calculate_quantity}
use expert_octo_enigma.Executor.Buying.{execute_buy-Approved}

abbrev manager : RiskManager ℤ
manager = record {
  config = record {
    initial_capital = pos 1000;
    max_single_position = pos 1;
    max_positions = 3;
    max_daily_loss = pos 0;
    min_order_amount = pos 100;
    stop_loss_percent = pos 0;
  };
  has_history = true;
  daily_pnl = pos 0;
  daily_start_equity = pos 1000;
  emergency_stop = false;
}

abbrev answers : Answers ℤ
answers = record {
  balance = some (record { total_assets = pos 2000; available_cash = pos 2000 });
  second_balance = some (record { total_assets = pos 2000; available_cash = pos 2000 });
  positions = some [];
}

abbrev trade : Trade ℤ
trade = record {
  type = "buy";
  symbol = "sh600000";
  name = "pfyh";
  amount = pos 100;
  price = pos 10;
}

abbrev broker : Broker ℤ
broker = record {
  buy = λ _ _ _. some "b1";
  sell = λ _ _ _. some "s1";
  cancel = λ _. true;
  orders = some [];
  trades = some (trade ∷ []);
}

abbrev executor : Executor ℤ
executor = record {
  risk = record { mu = free; inner = manager };
  positions = record { mu = free; inner = [] };
  placed = [];
  cancelled = [];
}

abbrev bought : Executor ℤ
bought = record executor {
  placed = record { type = "buy"; symbol = "sh600000"; price = pos 5; quantity = pos 200 } ∷ [];
}

abbrev whole_part : ℤ → ℤ
whole_part x = x

execute_buy-Approved_example :
    Approved answers (buy_request whole_part "sh600000" (pos 5) (pos 1000)) manager
    × (ltb_ℤ
          (pos 0)
          (calculate_quantity whole_part (buy_request whole_part "sh600000" (pos 5) (pos 1000)))
        ≡ true)
    × (broker.buy "sh600000"
          (pos 5)
          (calculate_quantity whole_part (buy_request whole_part "sh600000" (pos 5) (pos 1000)))
        ≡ some "b1")
    × (bought ≡ record executor {
      placed =
          []
          ++ record {
            type = "buy";
            symbol = "sh600000";
            price = pos 5;
            quantity =
                calculate_quantity whole_part
                  (buy_request whole_part "sh600000" (pos 5) (pos 1000));
          }
            ∷ [];
    })
unfolding execute_buy calculate_quantity expert_octo_enigma.RiskManager.check_before_order
    expert_octo_enigma.RiskManager.exceeds_daily_loss expert_octo_enigma.Prelude.Int.◌-ℤ◌
    expert_octo_enigma.RiskManager.check_amounts expert_octo_enigma.RiskManager.max_single_amount
    expert_octo_enigma.RiskManager.check_positions
execute_buy-Approved_example =
    execute_buy-Approved whole_part broker answers "sh600000" "b1" (pos 5) (pos 1000) manager
      executor bought refl refl
