-- ===== src/Strategies/Loading.antt =====
-- trading/strategies/strategy_loader.go: the registry of strategies. A factory makes the same fresh
-- strategy each time. A map of parameters is never nil. Reading and writing files is not implemented
-- in the source, and left out.
use expert_octo_enigma.Prelude.{
  ℕ, String, Bool, true, false, not, ◌||◌, Option, none, some, List, [], ◌∷◌, str_eq, if◌then◌else◌,
  length, keep, map,
}
use expert_octo_enigma.Table.{Table, lookup, insert, delete, has, values}
use expert_octo_enigma.Float.{Float, nought}
use expert_octo_enigma.Strategies.{Strategy, StrategyConfig, Loader}

module _ {F : Type 0} where
  pub register_factory : String → Strategy F → Loader F → Loader F
  register_factory type factory l = record l { factories = insert type factory l.factories }

  configure : StrategyConfig F → Strategy F → Option (Strategy F)
  configure c s = elim (s.update s.parameters (insert "_name" c.name c.parameters)) [
    | none ↦ none
    | some p ↦ some (record s { parameters = p; weight = c.weight; enabled = c.enabled })
  ]

  pub create_strategy : StrategyConfig F → Loader F → Option (Strategy F)
  unfolding configure
  create_strategy c l = elim (lookup c.type l.factories) [ none ↦ none | some s ↦ configure c s ]

  initialised : StrategyConfig F → Strategy F → Option (Strategy F)
  initialised c s = elim (s.init s.parameters c.parameters) [
    | none ↦ none
    | some p ↦ some (record s { parameters = p })
  ]

  -- A configuration that is off, or fails, is passed over.
  load_one : StrategyConfig F → Loader F → Loader F
  unfolding create_strategy initialised
  load_one c l = if not c.enabled then l else elim (create_strategy c l) [
    | none ↦ l
    | some s ↦ elim (initialised c s) [
      | none ↦ l
      | some t ↦ record l { strategies = insert c.name t l.strategies }
    ]
  ]

  pub load_strategies : List (StrategyConfig F) → Loader F → Loader F
  unfolding load_one
  load_strategies [] l = l
  load_strategies (c ∷ cs) l = load_strategies cs (load_one c l)

  pub get_strategy : String → Loader F → Option (Strategy F)
  get_strategy name l = lookup name l.strategies

  pub get_all_strategies : Loader F → Table (Strategy F)
  get_all_strategies l = l.strategies

  unfoldable pub enabled_of : Table (Strategy F) → Table (Strategy F)
  enabled_of [] = []
  enabled_of ((name, s) ∷ rest) =
      let more = enabled_of rest in if s.enabled then (name, s) ∷ more else more

  unfoldable pub get_enabled_strategies : Loader F → Table (Strategy F)
  unfolding enabled_of
  get_enabled_strategies l = enabled_of l.strategies

  -- The weight and the state are set even where the parameters are refused.
  update_with : String → StrategyConfig F → Strategy F → Loader F → Bool × Loader F
  update_with name c s l =
      let t = record s { weight = c.weight; enabled = c.enabled } in
      elim (s.update s.parameters c.parameters) [
        | none ↦ (false, record l { strategies = insert name t l.strategies })
        | some p ↦
            (true, record l { strategies = insert name (record t { parameters = p }) l.strategies })
      ]

  pub update_strategy : String → StrategyConfig F → Loader F → Bool × Loader F
  unfolding update_with
  update_strategy name c l = elim (lookup name l.strategies) [
    | none ↦ (false, l)
    | some s ↦ update_with name c s l
  ]

  pub remove_strategy : String → Loader F → Bool × Loader F
  remove_strategy name l =
      if has name l.strategies
      then (true, record l { strategies = delete name l.strategies })
      else (false, l)

  pub get_strategy_names : Loader F → List String
  get_strategy_names l = map (λ e. e.0) l.strategies

  pub get_strategy_count : Loader F → ℕ
  get_strategy_count l = length l.strategies

  pub get_enabled_strategy_count : Loader F → ℕ
  get_enabled_strategy_count l = length (keep (λ s. s.enabled) (values l.strategies))

-- The description and the time of creation are constants of the source.
pub record StrategySummary (F : Type 0) : Type 0 where
  pub name : String
  pub enabled : Bool
  pub weight : F
  pub parameters : Table String

module _ {F : Type 0} where
  summary_of : Strategy F → StrategySummary F
  summary_of s = record {
    name = s.name;
    enabled = s.enabled;
    weight = s.weight;
    parameters = s.parameters;
  }

  pub get_strategy_summary : String → Loader F → Option (StrategySummary F)
  unfolding summary_of
  get_strategy_summary name l = elim (lookup name l.strategies) [
    | none ↦ none
    | some s ↦ some (summary_of s)
  ]

  pub get_all_strategy_summaries : Loader F → List (StrategySummary F)
  unfolding summary_of
  get_all_strategy_summaries l = map summary_of (values l.strategies)

pub data ConfigError : Type 0 where
  name_empty type_empty weight_out_of_range type_not_registered : ConfigError

pub validate_config : {F : Type 0} ⦃f : Float F⦄ → StrategyConfig F → Loader F → Option ConfigError
validate_config ⦃f⦄ c l =
    if str_eq c.name ""
    then some name_empty
    else if str_eq c.type ""
    then some type_empty
    else if f.lt c.weight nought || f.lt (f.lit 1 0) c.weight
    then some weight_out_of_range
    else if not (has c.type l.factories)
    then some type_not_registered
    else none
