-- ===== src/Positions/Tests.antt =====
-- Runs of the position manager of trading/position_manager.go, on whole prices.
use expert_octo_enigma.Prelude.{
  ℕ, String, ◌≡◌, refl, Bool, true, false, Option, none, some, List, [], ◌∷◌, arith, eq_iff,
}
use expert_octo_enigma.Prelude.Int.{ℤ, pos, ltb_ℤ}
use expert_octo_enigma.Float.Whole.{Whole, whole}
use expert_octo_enigma.Lock.{done, free}
use expert_octo_enigma.Table.{lookup}
use expert_octo_enigma.Positions.{PositionState, Positions, Trade}
use expert_octo_enigma.Positions.Holdings.{amount_at, update_all, ledger, settle, update_all-ledger}

abbrev trade : String → ℤ → Trade Whole
trade type amount = record {
  type = type;
  symbol = "sh600000";
  name = "pfyh";
  amount = amount;
  price = some 10;
}

abbrev position : PositionState Whole
position = record {
  symbol = "sh600000";
  name = "pfyh";
  amount = pos 300;
  available = pos 0;
  cost_price = some 9;
  total_cost = some 2700;
  current_price = some 9;
  market_value = some 2700;
  unrealized_pnl = some 0;
  realized_pnl = some 0;
  update_time = 3;
}

abbrev held : Positions Whole
held = ("sh600000", position) ∷ []

update_all-ledger_example :
    (n : Positions Whole) × (update_all
        ((4, trade "buy" (pos 100)) ∷ (5, trade "卖出" (pos 250)) ∷ [])
        (record { mu = free; inner = held })
      ≡ done (tt, record { mu = free; inner = n }))
    × (amount_at "sh600000" n ≡ pos 150)
unfolding ledger settle amount_at lookup expert_octo_enigma.Prelude.Int.◌-ℤ◌
    expert_octo_enigma.Prelude.Int.◌+ℤ◌
update_all-ledger_example =
    update_all-ledger "sh600000" ((4, trade "buy" (pos 100)) ∷ (5, trade "卖出" (pos 250)) ∷ []) held
      (refl, (refl, tt))
