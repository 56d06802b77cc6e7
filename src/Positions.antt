-- ===== src/Positions.antt =====
-- trading/position_manager.go: the positions under their lock. The broker's answer is an argument,
-- `none` for an error, and so are the readings of the clock. A position is read and changed in place
-- under the lock, so the map holds the positions themselves.
pub mod Holdings
pub mod Sales
mod Tests
use expert_octo_enigma.Prelude.{
  ℕ, suc, ◌+◌, String, Bool, true, false, not, ◌&&◌, ◌||◌, Option, none, some, List, [], ◌∷◌,
  if◌then◌else◌, length, str_eq,
}
use expert_octo_enigma.Prelude.Int.{ℤ, pos, ◌+ℤ◌, ◌-ℤ◌, ltb_ℤ}
use expert_octo_enigma.Table.{Table, lookup, insert, delete, has, values}
use expert_octo_enigma.Float.{Float, nought}
use expert_octo_enigma.Lock.{
  Method, Outcome, done, blocked, crashed, ◌>>=◌, ◌>>◌, pure, gets, modify, locked, r_locked, free,
  Guarded,
}

pub record PositionState (F : Type 0) : Type 0 where
  pub symbol : String
  pub name : String
  pub amount : ℤ
  pub available : ℤ
  pub cost_price : F
  pub total_cost : F
  pub current_price : F
  pub market_value : F
  pub unrealized_pnl : F
  pub realized_pnl : F
  pub update_time : ℕ

-- The broker's `Position`, as far as it is read.
pub record BrokerPosition (F : Type 0) : Type 0 where
  pub symbol : String
  pub name : String
  pub amount : ℤ
  pub available : ℤ
  pub cost_price : F
  pub current_price : F
  pub market_value : F
  pub profit : F

pub record Trade (F : Type 0) : Type 0 where
  pub type : String
  pub symbol : String
  pub name : String
  pub amount : ℤ
  pub price : F

abbrev pub Positions : Type 0 → Type 0
Positions F = Table (PositionState F)

pub record PositionSummary (F : Type 0) : Type 0 where
  pub position_count : ℕ
  pub total_market_value : F
  pub total_unrealized_pnl : F
  pub total_realized_pnl : F
  pub positions : List (PositionState F)

module _ {F : Type 0} ⦃f : Float F⦄ where
  state_of : ℕ → BrokerPosition F → PositionState F
  state_of now p = record {
    symbol = p.symbol;
    name = p.name;
    amount = p.amount;
    available = p.available;
    cost_price = p.cost_price;
    total_cost = f.mul (f.of_int p.amount) p.cost_price;
    current_price = p.current_price;
    market_value = p.market_value;
    unrealized_pnl = p.profit;
    realized_pnl = nought;
    update_time = now;
  }

  load : ℕ → List (BrokerPosition F) → Positions F → Positions F
  unfolding state_of
  load now [] m = m
  load now (p ∷ ps) m = load now ps (insert p.symbol (state_of now p) m)

  -- `false` for the error.
  unfoldable pub sync_positions : ℕ → Option (List (BrokerPosition F)) → Method (Positions F) Bool
  unfolding load
  sync_positions now none = pure false
  sync_positions now (some ps) = locked do modify (λ m. load now ps []); pure true

  -- `NewPositionManager`, which drops the error.
  unfoldable pub new_position_manager :
      ℕ → Option (List (BrokerPosition F)) → Outcome (Bool × Guarded (Positions F))
  unfolding sync_positions
  new_position_manager now answer = sync_positions now answer (record { mu = free; inner = [] })

  unfoldable pub get_position : String → Method (Positions F) (Option (PositionState F))
  get_position symbol = r_locked (gets (lookup symbol))

  unfoldable pub get_all_positions : Method (Positions F) (List (PositionState F))
  get_all_positions = r_locked (gets values)

  unfoldable pub has_position : String → Method (Positions F) Bool
  has_position symbol = r_locked (gets (has symbol))

  -- A price is set: the market value and the profit that is not realized follow.
  unfoldable pub reprice : ℕ → F → PositionState F → PositionState F
  reprice now price p =
      let value = f.mul (f.of_int p.amount) price in
      record p {
        current_price = price;
        market_value = value;
        unrealized_pnl = f.sub value p.total_cost;
        update_time = now;
      }

  unfoldable pub bought_more : ℕ → Trade F → PositionState F → PositionState F
  unfolding reprice
  bought_more now t p =
      let cost = f.mul (f.of_int t.amount) t.price in
      let total = p.amount +ℤ t.amount in
      reprice now t.price (record p {
        amount = total;
        total_cost = f.add p.total_cost cost;
        cost_price = f.div (f.add p.total_cost cost) (f.of_int total);
      })

  unfoldable pub opened : ℕ → Trade F → PositionState F
  opened now t = record {
    symbol = t.symbol;
    name = t.name;
    amount = t.amount;
    available = pos 0;
    cost_price = t.price;
    total_cost = f.mul (f.of_int t.amount) t.price;
    current_price = t.price;
    market_value = f.mul (f.of_int t.amount) t.price;
    unrealized_pnl = nought;
    realized_pnl = nought;
    update_time = now;
  }

  unfoldable pub sold_part : Trade F → PositionState F → PositionState F
  sold_part t p =
      let sold_cost = f.mul (f.of_int t.amount) (f.div p.total_cost (f.of_int p.amount)) in
      record p {
        realized_pnl = f.add p.realized_pnl (f.sub (f.mul (f.of_int t.amount) t.price) sold_cost);
        amount = p.amount -ℤ t.amount;
        total_cost = f.sub p.total_cost sold_cost;
      }

  -- The two cases of the `switch`, and the others, which do nothing.
  unfoldable pub buy : ℕ → Trade F → Positions F → Positions F
  unfolding bought_more opened
  buy now t m = elim (lookup t.symbol m) [
    | some p ↦ insert t.symbol (bought_more now t p) m
    | none ↦ insert t.symbol (opened now t) m
  ]

  unfoldable pub sell : ℕ → Trade F → Positions F → Positions F
  unfolding sold_part reprice
  sell now t m = elim (lookup t.symbol m) [
    | none ↦ m
    | some p ↦
        if not (ltb_ℤ (pos 0) (p.amount -ℤ t.amount))
        then delete t.symbol m
        else insert t.symbol (reprice now t.price (sold_part t p)) m
  ]

  unfoldable pub apply_trade : ℕ → Trade F → Positions F → Positions F
  unfolding buy sell
  apply_trade now t m =
      if str_eq t.type "买入" || str_eq t.type "buy"
      then buy now t m
      else if str_eq t.type "卖出" || str_eq t.type "sell"
      then sell now t m
      else m

  -- It never fails.
  unfoldable pub update_position : ℕ → Trade F → Method (Positions F) (Unit {0})
  update_position now t = locked (modify (apply_trade now t))

  sum_of : (PositionState F → F) → F → Positions F → F
  sum_of field total [] = total
  sum_of field total ((symbol, p) ∷ rest) = sum_of field (f.add total (field p)) rest

  unfoldable pub get_total_market_value : Method (Positions F) F
  unfolding sum_of
  get_total_market_value = r_locked (gets (sum_of (λ p. p.market_value) nought))

  unfoldable pub get_total_unrealized_pnl : Method (Positions F) F
  unfolding sum_of
  get_total_unrealized_pnl = r_locked (gets (sum_of (λ p. p.unrealized_pnl) nought))

  unfoldable pub get_total_realized_pnl : Method (Positions F) F
  unfolding sum_of
  get_total_realized_pnl = r_locked (gets (sum_of (λ p. p.realized_pnl) nought))

  unfoldable pub get_position_count : Method (Positions F) ℕ
  get_position_count = r_locked (gets length)

  -- The clock is read for each symbol; the readings are taken as one.
  unfoldable pub refresh_loop : ℕ → Table F → Positions F → Positions F
  unfolding reprice
  refresh_loop now [] m = m
  refresh_loop now ((symbol, price) ∷ rest) m =
      refresh_loop now rest
        (elim (lookup symbol m) [ some p ↦ insert symbol (reprice now price p) m | none ↦ m ])

  unfoldable pub refresh_prices : ℕ → Table F → Method (Positions F) (Unit {0})
  unfolding refresh_loop
  refresh_prices now prices = locked (modify (refresh_loop now prices))

  unfoldable pub calculate_position_value : String → Method (Positions F) (Option F)
  unfolding get_position
  calculate_position_value symbol = do
    found ← get_position symbol
    elim found [ none ↦ pure none | some p ↦ pure (some p.market_value) ]

  unfoldable pub get_position_summary : Method (Positions F) (PositionSummary F)
  unfolding sum_of
  get_position_summary = r_locked (
      gets (λ m. record {
        position_count = length m;
        total_market_value = sum_of (λ p. p.market_value) nought m;
        total_unrealized_pnl = sum_of (λ p. p.unrealized_pnl) nought m;
        total_realized_pnl = sum_of (λ p. p.realized_pnl) nought m;
        positions = values m;
      }))
