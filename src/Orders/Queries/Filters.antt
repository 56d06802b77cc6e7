-- ===== src/Orders/Queries/Filters.antt =====
-- `Match` of trading/order/manager.go against a description of the filter.
use expert_octo_enigma.Prelude.{◌≤◌, String, ◌≡◌, ◌↔◌, ◌⊎◌, true, false, arith, eq_iff}
use expert_octo_enigma.Orders.{Order}
use expert_octo_enigma.Orders.Queries.{OrderFilter, misses, matches}

-- The filter leaves the text open, or asks for this one.
abbrev pub Accepts : String → String → Type 0
Accepts wanted actual = (wanted ≡ "") ⊎ (actual ≡ wanted)

pub record Selects {F : Type 0} (g : OrderFilter) (o : Order F) : Type 0 where
  pub symbol_fits : Accepts g.symbol o.symbol
  pub side_fits : Accepts g.side o.side
  pub status_fits : Accepts g.status o.status
  pub type_fits : Accepts g.type o.type
  pub not_early : (g.min_time ≡ 0) ⊎ (g.min_time ≤ o.create_time)
  pub not_late : (g.max_time ≡ 0) ⊎ (o.create_time ≤ g.max_time)

misses_iff : (wanted actual : String) → (misses wanted actual ≡ false) ↔ Accepts wanted actual
unfolding misses
misses_iff wanted actual = ground (arith, eq_iff wanted "", eq_iff actual wanted)

-- An order matches exactly if each field of the filter that is set accepts it.
pub matches_iff : {F : Type 0} (g : OrderFilter) (o : Order F) → (matches g o ≡ true) ↔ Selects g o
unfolding matches
matches_iff g o = ground (
  arith,
  misses_iff g.symbol o.symbol,
  misses_iff g.side o.side,
  misses_iff g.status o.status,
  misses_iff g.type o.type,
)
