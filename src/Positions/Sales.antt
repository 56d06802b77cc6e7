-- ===== src/Positions/Sales.antt =====
-- What trading/position_manager.go remembers of a position that was sold.
use expert_octo_enigma.Prelude.{ℕ, String, ◌≡◌, false, [], ◌∷◌, arith, eq_iff}
use expert_octo_enigma.Prelude.Int.{ℤ, pos, ◌-ℤ◌, ltb_ℤ, -ℤ_parts}
use expert_octo_enigma.Table.{insert, delete, has, lookup-insert, lookup-has-not}
use expert_octo_enigma.Float.{Float}
use expert_octo_enigma.Lock.{done, free, ◌>>◌}
use expert_octo_enigma.Positions.{
  PositionState, Positions, Trade, apply_trade, buy, sell, update_position, opened,
}

none_left : (a : ℤ) → ltb_ℤ (pos 0) (a -ℤ a) ≡ false
none_left a = ground (arith, -ℤ_parts a a)

module _ {F : Type 0} ⦃f : Float F⦄ where
  delete-insert :
      (k : String) (p : PositionState F) (m : Positions F)
      → has k m ≡ false
      → delete k (insert k p m) ≡ m
  unfolding delete insert has
  delete-insert k p [] h = ground (arith, eq_iff k k)
  delete-insert k p ((j, q) ∷ m) h = ground (arith, delete-insert k p m)

  -- A stock that was not held is bought and then sold again, all of it: whatever the two prices, both
  -- calls return, and the manager is in the state before the first, so its total of the realized profits
  -- is what it was, without the profit or the loss of this sale.
  pub sold_out_forgets :
      (bought sold : ℕ) (symbol name : String) (amount : ℤ) (price later : F) (m : Positions F)
      → has symbol m ≡ false
      → (update_position bought (record {
        type = "buy";
        symbol = symbol;
        name = name;
        amount = amount;
        price = price;
      })
            >> update_position sold (record {
              type = "sell";
              symbol = symbol;
              name = name;
              amount = amount;
              price = later;
            }))
          (record { mu = free; inner = m })
        ≡ done (tt, record { mu = free; inner = m })
  unfolding update_position apply_trade buy sell opened
  sold_out_forgets bought sold symbol name amount price later m h =
      let t : Trade F = record {
        type = "buy";
        symbol = symbol;
        name = name;
        amount = amount;
        price = price;
      } in
      ground (
        arith,
        lookup-has-not symbol m h,
        lookup-insert symbol symbol (opened bought t) m,
        eq_iff symbol symbol,
        none_left amount,
        delete-insert symbol (opened bought t) m h,
        eq_iff "buy" "买入",
        eq_iff "sell" "买入",
        eq_iff "sell" "buy",
        eq_iff "sell" "卖出",
        eq_iff "sell" "sell",
        eq_iff "buy" "buy",
      )
