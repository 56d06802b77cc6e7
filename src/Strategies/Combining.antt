-- ===== src/Strategies/Combining.antt =====
-- The combination of signals in trading/strategies/strategy_manager.go. `sort` is `sort.Slice` by the
-- priority. Texts of reasons are left out.
use expert_octo_enigma.Prelude.{
  ℕ, ◌+◌, String, Option, none, some, List, [], ◌∷◌, ◌++◌, ltb, ◌==◌, str_eq, if◌then◌else◌, length,
}
use expert_octo_enigma.Prelude.Int.{ℤ, pos, negsuc}
use expert_octo_enigma.Table.{Table, lookup, insert}
use expert_octo_enigma.Float.{Float, nought}
use expert_octo_enigma.Strategies.{Signal, MarketData, new_signal}

abbrev pub or_nothing : {A : Type 0} → Option (List A) → List A
or_nothing none = []
or_nothing (some xs) = xs

abbrev pub or_default : {A : Type 0} → A → Option A → A
or_default a none = a
or_default a (some b) = b

pub record PrioritySignal (F : Type 0) : Type 0 where
  pub signal : Signal F
  pub priority : ℤ
  pub weight : F

abbrev pub Sorter : Type 0 → Type 0
Sorter F = List (PrioritySignal F) → List (PrioritySignal F)

module _ {F : Type 0} where
  -- By the type of the signal, each list in the order of arrival.
  unfoldable pub group_signals : List (Signal F) → Table (List (Signal F)) → Table (List (Signal F))
  group_signals [] groups = groups
  group_signals (s ∷ rest) groups =
      group_signals rest
        (insert s.signal_type (or_nothing (lookup s.signal_type groups) ++ s ∷ []) groups)

  -- `len(signalsBySymbol[type])`
  abbrev pub count_type : String → Table (List (Signal F)) → ℕ
  count_type type groups = length (or_nothing (lookup type groups))

  pub flatten : Table (List (Signal F)) → List (Signal F)
  flatten [] = []
  flatten ((type, signals) ∷ rest) = signals ++ flatten rest

module _ {F : Type 0} ⦃f : Float F⦄ where
  -- Nothing on a tie.
  unfoldable pub vote : ℕ → ℕ → MarketData F → List (Signal F)
  vote buys sells m =
      if buys + sells == 0
      then []
      else if ltb sells buys
      then new_signal m.symbol "buy" (f.div (f.of_int (pos buys)) (f.of_int (pos (buys + sells))))
          m.close
        ∷ []
      else if ltb buys sells
      then new_signal m.symbol "sell" (f.div (f.of_int (pos sells)) (f.of_int (pos (buys + sells))))
          m.close
        ∷ []
      else []

  unfoldable pub combine_by_vote : Table (List (Signal F)) → MarketData F → List (Signal F)
  combine_by_vote groups m = vote (count_type "buy" groups) (count_type "sell" groups) m

  score_of : String → F
  score_of type =
      if str_eq type "buy"
      then f.lit 1 0
      else if str_eq type "sell"
      then f.neg (f.lit 1 0)
      else nought

  -- The weighted score and the total weight.
  weigh : List (Signal F) → F → F → F × F
  unfolding score_of
  weigh [] score total = (score, total)
  weigh (s ∷ rest) score total =
      let more = weigh rest in
      let w = or_default (f.lit 5 1) s.strategy_weight in
      more (f.add score (f.mul (score_of s.signal_type) w)) (f.add total w)

  abbrev abs : F → F
  abs x = if f.lt x nought then f.neg x else x

  normalized : F → MarketData F → List (Signal F)
  normalized score m =
      if f.lt (abs score) (f.lit 1 1)
      then []
      else new_signal m.symbol (if f.lt nought score then "buy" else "sell") (abs score) m.close
        ∷ []

  pub combine_by_weight : Table (List (Signal F)) → MarketData F → List (Signal F)
  unfolding weigh normalized flatten
  combine_by_weight groups m =
      let (score, total) = weigh (flatten groups) nought nought in
      if f.eq total nought then [] else normalized (f.div score total) m

  -- Without a priority, or with 0, it is 5.
  unfoldable pub ranked : Signal F → PrioritySignal F
  ranked s = record {
    signal = s;
    priority = elim (or_default (pos 0) s.strategy_priority) [
      | pos n ↦ if n == 0 then pos 5 else pos n
      | negsuc n ↦ negsuc n
    ];
    weight =
        if f.eq (or_default nought s.strategy_weight) nought
        then f.lit 5 1
        else or_default nought s.strategy_weight;
  }

  rank_all : List (Signal F) → List (PrioritySignal F)
  unfolding ranked
  rank_all [] = []
  rank_all (s ∷ rest) = ranked s ∷ rank_all rest

  first_signal : List (PrioritySignal F) → List (Signal F)
  first_signal [] = []
  first_signal (p ∷ rest) = p.signal ∷ []

  unfoldable pub combine_by_priority : Sorter F → Table (List (Signal F)) → List (Signal F)
  unfolding rank_all first_signal flatten
  combine_by_priority sort groups = first_signal (sort (rank_all (flatten groups)))

  -- By the manager's method; an unknown one keeps all signals.
  unfoldable pub combine_signals :
      Sorter F → String → List (Signal F) → MarketData F → List (Signal F)
  combine_signals sort method [] m = []
  combine_signals sort method (s ∷ rest) m =
      let groups = group_signals (s ∷ rest) [] in
      if str_eq method "vote"
      then combine_by_vote groups m
      else if str_eq method "weighted"
      then combine_by_weight groups m
      else if str_eq method "priority"
      then combine_by_priority sort groups
      else s ∷ rest
