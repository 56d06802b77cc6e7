-- ===== src/DecisionTree/Tests.antt =====
-- Runs of ml/decision_tree.go and its theorems at concrete inputs.
use expert_octo_enigma.Prelude.{
  ℕ, ◌+◌, ◌^◌, ◌<◌, ◌≤◌, suc, ◌≡◌, refl, Bool, true, false, Option, none, some, List, [], ◌∷◌,
  arith, length,
}
use expert_octo_enigma.Prelude.Int.{ℤ, pos}
use expert_octo_enigma.Float.Signed.{signed}
use expert_octo_enigma.Lock.{Outcome, done}
use expert_octo_enigma.DecisionTree.{DecisionTree, TreeNode, TrainError, train, leaf, depth_limit}
use expert_octo_enigma.DecisionTree.Predicting.{
  running, predicted, node_confidence, invalid_state, predict, next_index, at_index,
}
use expert_octo_enigma.DecisionTree.Labels.{Known, predicted_label-Known}
use expert_octo_enigma.DecisionTree.Ranges.{trained-ne-invalid}
use expert_octo_enigma.DecisionTree.Majority.{occurrences}
use expert_octo_enigma.DecisionTree.OneSplit.{one_split_predicts}
use expert_octo_enigma.DecisionTree.Splitting.{Sample, labels_of}
use expert_octo_enigma.DecisionTree.Endless.{left_twice_never_ends}
use expert_octo_enigma.DecisionTree.Shallow.{trained-lt}

-- The median of the first feature splits twice.
abbrev features : List (List ℤ)
features = (pos 1 ∷ []) ∷ (pos 2 ∷ []) ∷ (pos 5 ∷ []) ∷ (pos 6 ∷ []) ∷ []

abbrev labels : List ℤ
labels = pos 0 ∷ pos 1 ∷ pos 0 ∷ pos 2 ∷ []

abbrev new_tree : ℤ → DecisionTree ℤ
new_tree depth = record { nodes = []; max_depth = depth }

abbrev tree_or : DecisionTree ℤ → Outcome (Option TrainError × DecisionTree ℤ) → DecisionTree ℤ
tree_or t (done (e, u)) = u
tree_or t _ = t

abbrev deep : DecisionTree ℤ
deep = tree_or (new_tree (pos 2)) (train features labels (new_tree (pos 2)))

abbrev stump : DecisionTree ℤ
stump = tree_or (new_tree (pos 1)) (train features labels (new_tree (pos 1)))

abbrev node_at : ℤ → List (TreeNode ℤ) → TreeNode ℤ
node_at i nodes = elim (at_index i nodes) [ none ↦ leaf (pos 9) | some n ↦ n ]

-- 4 and 3 of the nodes of the two trees.
sizes : (length deep.nodes ≡ 7) × (length stump.nodes ≡ 3)
unfolding train depth_limit expert_octo_enigma.DecisionTree.Splitting.is_pure
    expert_octo_enigma.DecisionTree.Splitting.find_best_split expert_octo_enigma.Prelude.Int.◌+ℤ◌
    expert_octo_enigma.Prelude.Int.◌-ℤ◌ expert_octo_enigma.DecisionTree.Splitting.bump
    expert_octo_enigma.DecisionTree.Splitting.count_at
    expert_octo_enigma.DecisionTree.Splitting.majority_label
    expert_octo_enigma.DecisionTree.Splitting.split_data expert_octo_enigma.DecisionTree.join_nodes
sizes = (refl, refl)

predicted_label-Known_example : Known labels (pos 0)
unfolding train predict depth_limit expert_octo_enigma.DecisionTree.Splitting.is_pure
    expert_octo_enigma.DecisionTree.Splitting.find_best_split expert_octo_enigma.Prelude.Int.◌+ℤ◌
    expert_octo_enigma.Prelude.Int.◌-ℤ◌ expert_octo_enigma.DecisionTree.Splitting.bump
    expert_octo_enigma.DecisionTree.Splitting.count_at
    expert_octo_enigma.DecisionTree.Splitting.majority_label
    expert_octo_enigma.DecisionTree.Splitting.split_data expert_octo_enigma.DecisionTree.join_nodes
predicted_label-Known_example =
    predicted_label-Known features labels (new_tree (pos 1)) stump 5 (pos 1 ∷ []) (pos 0) (pos 0)
      refl refl

trained-ne-invalid_example : ¬ (predict 5 (pos 9 ∷ []) deep ≡ invalid_state)
unfolding train depth_limit expert_octo_enigma.DecisionTree.Splitting.is_pure
    expert_octo_enigma.DecisionTree.Splitting.find_best_split expert_octo_enigma.Prelude.Int.◌+ℤ◌
    expert_octo_enigma.Prelude.Int.◌-ℤ◌ expert_octo_enigma.DecisionTree.Splitting.bump
    expert_octo_enigma.DecisionTree.Splitting.count_at
    expert_octo_enigma.DecisionTree.Splitting.majority_label
    expert_octo_enigma.DecisionTree.Splitting.split_data
trained-ne-invalid_example =
    trained-ne-invalid features labels (new_tree (pos 2)) deep 5 (pos 9 ∷ []) refl

left_twice_never_ends_example : predict 1000 (pos 1 ∷ []) deep ≡ running
unfolding train next_index depth_limit expert_octo_enigma.DecisionTree.Splitting.is_pure
    expert_octo_enigma.DecisionTree.Splitting.find_best_split expert_octo_enigma.Prelude.Int.◌+ℤ◌
    expert_octo_enigma.Prelude.Int.◌-ℤ◌ expert_octo_enigma.DecisionTree.Splitting.bump
    expert_octo_enigma.DecisionTree.Splitting.count_at
    expert_octo_enigma.DecisionTree.Splitting.majority_label
    expert_octo_enigma.DecisionTree.Splitting.split_data expert_octo_enigma.DecisionTree.join_nodes
left_twice_never_ends_example =
    left_twice_never_ends features labels (new_tree (pos 2)) deep (pos 1 ∷ [])
      (node_at (pos 0) deep.nodes) (node_at (pos 1) deep.nodes) 1000 refl refl refl refl refl refl
      refl

-- The samples of `stump` on both sides of its threshold.
abbrev halves : List (Sample ℤ) × List (Sample ℤ)
halves =
    ((pos 1 ∷ [], pos 0) ∷ (pos 2 ∷ [], pos 1) ∷ [], (pos 5 ∷ [], pos 0) ∷ (pos 6 ∷ [], pos 2) ∷ [])

one_split_predicts_example :
    (label : ℤ) × (predict 2 (pos 9 ∷ []) stump ≡ predicted label (node_confidence (pos 1)))
    × (occurrences (pos 2) (labels_of (halves.1)) ≤ occurrences label (labels_of (halves.1)))
unfolding train depth_limit expert_octo_enigma.DecisionTree.Splitting.is_pure
    expert_octo_enigma.DecisionTree.Splitting.find_best_split expert_octo_enigma.Prelude.Int.◌+ℤ◌
    expert_octo_enigma.Prelude.Int.◌-ℤ◌ expert_octo_enigma.DecisionTree.Splitting.bump
    expert_octo_enigma.DecisionTree.Splitting.count_at
    expert_octo_enigma.DecisionTree.Splitting.majority_label
    expert_octo_enigma.DecisionTree.Splitting.split_data expert_octo_enigma.DecisionTree.join_nodes
one_split_predicts_example =
    one_split_predicts features labels (new_tree (pos 1)) stump (node_at (pos 0) stump.nodes) 0
      (pos 9 ∷ []) (pos 9) halves (pos 2) refl refl refl refl refl refl refl

trained-lt_example : length deep.nodes < 2 ^ suc (depth_limit (pos 2))
unfolding train depth_limit expert_octo_enigma.DecisionTree.Splitting.is_pure
    expert_octo_enigma.DecisionTree.Splitting.find_best_split expert_octo_enigma.Prelude.Int.◌+ℤ◌
    expert_octo_enigma.Prelude.Int.◌-ℤ◌ expert_octo_enigma.DecisionTree.Splitting.bump
    expert_octo_enigma.DecisionTree.Splitting.count_at
    expert_octo_enigma.DecisionTree.Splitting.majority_label
    expert_octo_enigma.DecisionTree.Splitting.split_data
trained-lt_example = trained-lt features labels (new_tree (pos 2)) deep refl
