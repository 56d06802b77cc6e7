-- ===== src/DecisionTree/Endless.antt =====
-- Where Predict of ml/decision_tree.go goes round for ever, and where it ends.
use expert_octo_enigma.Prelude.{
  ℕ, zero, suc, ◌≡◌, refl, ap, ◌∙◌, true, false, none, some, List, [], ◌∷◌, ◌⊎◌, inl, inr, arith,
  All, All-append,
}
use expert_octo_enigma.Prelude.Int.{ℤ, pos}
use expert_octo_enigma.Float.{Float}
use expert_octo_enigma.Lock.{done}
use expert_octo_enigma.DecisionTree.{
  TreeNode, DecisionTree, join_nodes, pair_up, train, depth_limit,
}
use expert_octo_enigma.DecisionTree.Growing.{IsGrown, build_grown}
use expert_octo_enigma.DecisionTree.Training.{train_built}
use expert_octo_enigma.DecisionTree.Predicting.{
  running, at_index, at_index-All, predict_from, next_index, predict, started,
}

module _ {F : Type 0} ⦃f : Float F⦄ where
  -- The left child of an inner node is at 1.
  abbrev LeftIsOne : TreeNode F → Type 0
  LeftIsOne node = (node.is_leaf ≡ true) ⊎ (node.left_child ≡ pos 1)

  LeftIsOne-IsGrown : IsGrown (λ n samples nodes. All LeftIsOne nodes)
  unfolding join_nodes
  LeftIsOne-IsGrown = record {
    of_leaf = λ n samples m. (inl refl, tt);
    of_split =
        λ n samples left right feature threshold l r m s h k. (inr refl, All-append _ l r h k);
  }

  predict_from-running :
      (fuel : ℕ) (nodes : List (TreeNode F)) (x : List F) (node : TreeNode F)
      → at_index (pos 1) nodes ≡ some node
      → node.is_leaf ≡ false
      → next_index x node ≡ some (pos 1)
      → predict_from fuel nodes x (pos 1) ≡ running
  unfolding predict_from
  predict_from-running zero nodes x node a l n = refl
  predict_from-running (suc fuel) nodes x node a l n =
      ground (arith, a, l, n, predict_from-running fuel nodes x node a l n)

  goes_to_one :
      (idx : ℤ) (nodes : List (TreeNode F)) (x : List F) (node : TreeNode F)
      → All LeftIsOne nodes
      → at_index idx nodes ≡ some node
      → node.is_leaf ≡ false
      → next_index x node ≡ some node.left_child
      → next_index x node ≡ some (pos 1)
  goes_to_one idx nodes x node h a l n = elim (at_index-All (LeftIsOne) idx nodes node h a) [
    | inl t ↦ cc
    | inr one ↦ n ∙ ap some one
  ]

  started-running :
      (fuel : ℕ) (nodes : List (TreeNode F)) (x : List F) (root node : TreeNode F)
      → All LeftIsOne nodes
      → at_index (pos 0) nodes ≡ some root
      → root.is_leaf ≡ false
      → next_index x root ≡ some root.left_child
      → at_index (pos 1) nodes ≡ some node
      → node.is_leaf ≡ false
      → next_index x node ≡ some node.left_child
      → started fuel nodes x ≡ running
  unfolding predict_from
  started-running fuel [] x root node h a l n b k q = cc
  started-running zero (m ∷ ms) x root node h a l n b k q = refl
  started-running (suc fuel) (m ∷ ms) x root node h a l n b k q = ground (
    arith,
    a,
    l,
    goes_to_one (pos 0) (m ∷ ms) x root h a l n,
    predict_from-running fuel (m ∷ ms) x node b k (goes_to_one (pos 1) (m ∷ ms) x node h b k q),
  )

  -- When, after a training without an error, the root and the node after it are no leaves, and a sample
  -- goes to the left child at both, its prediction does not end, whatever the fuel.
  pub left_twice_never_ends :
      (features : List (List F)) (labels : List ℤ) (tree trained : DecisionTree F) (x : List F)
      (root node : TreeNode F) (fuel : ℕ)
      → train features labels tree ≡ done (none, trained)
      → at_index (pos 0) trained.nodes ≡ some root
      → root.is_leaf ≡ false
      → next_index x root ≡ some root.left_child
      → at_index (pos 1) trained.nodes ≡ some node
      → node.is_leaf ≡ false
      → next_index x node ≡ some node.left_child
      → predict fuel x trained ≡ running
  unfolding predict
  left_twice_never_ends features labels tree trained x root node fuel e a l n b k q =
      let (m, g) = train_built features labels tree trained e in
      started-running fuel trained.nodes x root node
        (build_grown _ LeftIsOne-IsGrown (depth_limit tree.max_depth) (pair_up features labels)
          trained.nodes m g)
        a l n b k q
