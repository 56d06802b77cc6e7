-- ===== src/DecisionTree/Training.antt =====
-- What a training of ml/decision_tree.go that ends without an error has built.
use expert_octo_enigma.Prelude.{
  ◌≡◌, refl, ap, ◌∙◌, false, Option, none, List, [], ◌∷◌, arith, length, ◌==◌, Bool-cases, inl, inr,
}
use expert_octo_enigma.Prelude.Int.{ℤ}
use expert_octo_enigma.Float.{Float}
use expert_octo_enigma.Lock.{done, and_then, and_then-eq-done, done-injective}
use expert_octo_enigma.DecisionTree.{
  DecisionTree, TrainError, build_node, pair_up, train, depth_limit,
}
use expert_octo_enigma.DecisionTree.Splitting.{is_empty}

module _ {F : Type 0} ⦃f : Float F⦄ where
  pub train_built :
      (features : List (List F)) (labels : List ℤ) (tree trained : DecisionTree F)
      → train features labels tree ≡ done (none, trained)
      → (is_empty (pair_up features labels) ≡ false)
        × (build_node (depth_limit tree.max_depth) (pair_up features labels) ≡ done trained.nodes)
  unfolding train pair_up
  train_built [] labels tree trained e = absurd (ground (arith, e))
  train_built (x ∷ xs) [] tree trained e = absurd (ground (arith, e))
  train_built (x ∷ xs) (l ∷ ls) tree trained e =
      elim (Bool-cases (length (x ∷ xs) == length (l ∷ ls))) [
        | inr m ↦ absurd (ground (arith, m, e))
        | inl m ↦
            let run : and_then (build_node (depth_limit tree.max_depth) (pair_up (x ∷ xs) (l ∷ ls)))
                  (λ nodes. done (none, record tree { nodes = nodes }))
                ≡ done (none, trained) =
              ground (arith, m, e) in
            let (nodes, a, b) =
              and_then-eq-done (build_node (depth_limit tree.max_depth) (pair_up (x ∷ xs) (l ∷ ls)))
                _ run in
            (
              refl,
              a
                  ∙ ap (λ (z : Option TrainError × DecisionTree F). done (z.1.nodes))
                      (done-injective (none, record tree { nodes = nodes }) b),
            )
      ]
