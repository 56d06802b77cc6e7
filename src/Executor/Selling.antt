-- ===== src/Executor/Selling.antt =====
-- Stop losses of trading/order_executor.go on positions that trades opened.
use expert_octo_enigma.Prelude.{ℕ, ◌≡◌, refl, inl, true, none, some, arith, eq_iff}
use expert_octo_enigma.Prelude.Int.{pos, ltb_ℤ}
use expert_octo_enigma.Table.{lookup, insert, lookup-insert}
use expert_octo_enigma.Float.{Float}
use expert_octo_enigma.Lock.{done, free}
use expert_octo_enigma.Positions.{
  Positions, Trade, apply_trade, buy, opened, update_position, get_position,
}
use expert_octo_enigma.Executor.{
  Executor, Broker, not_available, execute_stop_loss, execute_sell, sell_from,
}

module _ {F : Type 0} ⦃f : Float F⦄ where
  traded :
      (now : ℕ) (t : Trade F) (m : Positions F)
      → t.type ≡ "buy"
      → lookup t.symbol m ≡ none
      → apply_trade now t m ≡ insert t.symbol (opened now t) m
  unfolding apply_trade buy
  traded now t m b h = ground (arith, b, h, eq_iff t.type "buy", eq_iff t.type "买入")

  -- A position that a purchase of a positive amount opened cannot be stopped out: the purchase is recorded
  -- without an available amount, so `ExecuteStopLoss`, which sells the whole amount, is refused at any
  -- price and nothing is sent to the broker.
  pub stop_loss_refused :
      (broker : Broker F) (now : ℕ) (t : Trade F) (price : F) (m : Positions F) (x : Executor F)
      → t.type ≡ "buy"
      → ltb_ℤ (pos 0) t.amount ≡ true
      → lookup t.symbol m ≡ none
      → (n : Positions F) × (update_position now t (record { mu = free; inner = m })
          ≡ done (tt, record { mu = free; inner = n }))
        × (execute_stop_loss broker t.symbol price
              (record x { positions = record { mu = free; inner = n } })
            ≡ done (inl not_available, record x { positions = record { mu = free; inner = n } }))
  unfolding update_position execute_stop_loss execute_sell sell_from get_position opened
  stop_loss_refused broker now t price m x b p h =
      let n = insert t.symbol (opened now t) m in
      let bought : apply_trade now t m ≡ n = traded now t m b h in
      let there : lookup t.symbol n ≡ some (opened now t) =
        ground
          (arith, lookup-insert t.symbol t.symbol (opened now t) m, eq_iff t.symbol t.symbol) in
      (n, rw bought refl, ground (arith, there, p))
