-- ===== src/Strategies/Data.antt =====
-- The types of trading/strategies/strategy_interface.go, strategy_loader.go and strategy_manager.go.
use expert_octo_enigma.Prelude.{
  ℕ, String, Bool, true, not, ◌&&◌, ◌||◌, Option, none, some, [], str_eq, if◌then◌else◌,
}
use expert_octo_enigma.Prelude.Int.{ℤ}
use expert_octo_enigma.Table.{Table}
use expert_octo_enigma.Float.{Float, nought}

pub record MarketData (F : Type 0) : Type 0 where
  pub symbol : String
  pub open_price : F
  pub high : F
  pub low : F
  pub close : F
  pub volume : ℤ
  pub amount : F
  pub timestamp : ℕ
  pub pre_close : F
  pub change : F
  pub change_percent : F

-- Of the metadata the weight, the name and the priority are read; `has_metadata` tells a map from nil.
pub record Signal (F : Type 0) : Type 0 where
  pub symbol : String
  pub signal_type : String
  pub strength : F
  pub price : F
  pub target_price : F
  pub stop_loss : F
  pub has_metadata : Bool
  pub strategy_weight : Option F
  pub strategy_name : Option String
  pub strategy_priority : Option ℤ

pub data StrategyError : Type 0 where
  invalid_symbol invalid_signal_type invalid_strength invalid_price : StrategyError
  not_generated : StrategyError

-- What a strategy answers: an error, no signal, or a signal.
pub data Generated (F : Type 0) : Type 0 where
  generation_failed no_signal : Generated F
  generated : Signal F → Generated F

-- A strategy, with its own way to initialise and to take parameters, from the parameters that it has;
-- `none` where these fail.
pub record Strategy (F : Type 0) : Type 0 where
  pub name : String
  pub weight : F
  pub enabled : Bool
  pub parameters : Table String
  pub init : Table String → Table String → Option (Table String)
  pub update : Table String → Table String → Option (Table String)
  pub generate : Table String → MarketData F → Generated F

pub record StrategyConfig (F : Type 0) : Type 0 where
  pub name : String
  pub type : String
  pub enabled : Bool
  pub weight : F
  pub parameters : Table String
  pub priority : ℤ

pub record Loader (F : Type 0) : Type 0 where
  pub strategies : Table (Strategy F)
  pub factories : Table (Strategy F)

module _ {F : Type 0} ⦃f : Float F⦄ where
  unfoldable pub new_signal : String → String → F → F → Signal F
  new_signal symbol signal_type strength price = record {
    symbol = symbol;
    signal_type = signal_type;
    strength = strength;
    price = price;
    target_price = nought;
    stop_loss = nought;
    has_metadata = true;
    strategy_weight = none;
    strategy_name = none;
    strategy_priority = none;
  }

  unfoldable pub validate_signal : Signal F → Option StrategyError
  validate_signal s =
      if str_eq s.symbol ""
      then some invalid_symbol
      else if not (str_eq s.signal_type "buy")
          && not (str_eq s.signal_type "sell")
          && not (str_eq s.signal_type "hold")
      then some invalid_signal_type
      else if f.lt s.strength nought || f.lt (f.lit 1 0) s.strength
      then some invalid_strength
      else if f.le s.price nought
      then some invalid_price
      else none

  -- `NewBaseStrategy` and the default methods.
  pub new_base_strategy : String → F → (Table String → MarketData F → Generated F) → Strategy F
  new_base_strategy name weight generate = record {
    name = name;
    weight = weight;
    enabled = true;
    parameters = [];
    init = λ old config. some config;
    update = λ old params. some params;
    generate = generate;
  }
