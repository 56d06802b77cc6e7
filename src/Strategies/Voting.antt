-- ===== src/Strategies/Voting.antt =====
-- What combineByVote of trading/strategies/strategy_manager.go makes of the signals.
use expert_octo_enigma.Prelude.{
  ℕ, ◌+◌, String, ◌≡◌, refl, ap, ◌∙◌, sym, List, [], ◌∷◌, ◌++◌, arith, str_eq, eq_iff, length, keep,
  length-append, Bool-cases, inl, inr,
}
use expert_octo_enigma.Table.{Table, lookup, insert, lookup-insert}
use expert_octo_enigma.Float.{Float}
use expert_octo_enigma.Strategies.{Signal, MarketData}
use expert_octo_enigma.Strategies.Combining.{
  or_nothing, group_signals, count_type, Sorter, vote, combine_by_vote, combine_signals,
}

-- How many signals have the type.
abbrev pub count_of : {F : Type 0} → String → List (Signal F) → ℕ
count_of type xs = length (keep (λ s. str_eq s.signal_type type) xs)

module _ {F : Type 0} where
  count_type-insert :
      (type : String) (s : Signal F) (g : Table (List (Signal F)))
      → count_type type (insert s.signal_type (or_nothing (lookup s.signal_type g) ++ s ∷ []) g)
        ≡ count_type type g + count_of type (s ∷ [])
  count_type-insert type s g = elim (Bool-cases (str_eq s.signal_type type)) [
    | inl e ↦ ground (
      arith,
      e,
      eq_iff s.signal_type type,
      lookup-insert s.signal_type type (or_nothing (lookup s.signal_type g) ++ s ∷ []) g,
      length-append (or_nothing (lookup s.signal_type g)) (s ∷ []),
    )
    | inr e ↦ ground (
      arith,
      e,
      lookup-insert s.signal_type type (or_nothing (lookup s.signal_type g) ++ s ∷ []) g,
    )
  ]

  count_type-group_signals :
      (type : String) (xs : List (Signal F)) (g : Table (List (Signal F)))
      → count_type type (group_signals xs g) ≡ count_type type g + count_of type xs
  unfolding group_signals
  count_type-group_signals type [] g = omega arith
  count_type-group_signals type (s ∷ xs) g = ground (
    arith,
    count_type-insert type s g,
    count_type-group_signals type xs
        (insert s.signal_type (or_nothing (lookup s.signal_type g) ++ s ∷ []) g),
  )

  group_counts :
      (type : String) (xs : List (Signal F))
      → count_type type (group_signals xs []) ≡ count_of type xs
  unfolding lookup
  group_counts type xs = omega (arith, count_type-group_signals type xs [])

module _ {F : Type 0} ⦃f : Float F⦄ where
  vote_of_counts :
      (sort : Sorter F) (xs : List (Signal F)) (m : MarketData F)
      → combine_signals sort "vote" xs m ≡ vote (count_of "buy" xs) (count_of "sell" xs) m
  unfolding combine_signals combine_by_vote vote
  vote_of_counts sort [] m = refl
  vote_of_counts sort (s ∷ xs) m =
      ap (λ n. vote n (count_type "sell" (group_signals (s ∷ xs) [])) m)
        (group_counts "buy" (s ∷ xs))
      ∙ ap (λ n. vote (count_of "buy" (s ∷ xs)) n m) (group_counts "sell" (s ∷ xs))

  -- When two lists of signals have the same number of purchases and the same number of sales, the
  -- vote makes the same signals of them.
  pub vote_counts_only :
      (sort : Sorter F) (xs ys : List (Signal F)) (m : MarketData F)
      → count_of "buy" xs ≡ count_of "buy" ys
      → count_of "sell" xs ≡ count_of "sell" ys
      → combine_signals sort "vote" xs m ≡ combine_signals sort "vote" ys m
  vote_counts_only sort xs ys m b s =
      vote_of_counts sort xs m
      ∙ ap (λ n. vote n (count_of "sell" xs) m) b
      ∙ ap (λ n. vote (count_of "buy" ys) n m) s
      ∙ sym (vote_of_counts sort ys m)
