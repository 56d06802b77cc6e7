-- ===== src/DecisionTree.antt =====
-- ml/decision_tree.go: the decision tree that is trained on the indicators. The two lists of features
-- and labels are one list of samples once their lengths are checked. `crashed` is the panic of an index
-- that is out of range: a sample with fewer features than the first one. Of -1 for a feature or a child
-- the first is `none` while the best split is sought.
pub mod Splitting
pub mod Predicting
pub mod Growing
pub mod Training
pub mod Labels
pub mod Ranges
pub mod Endless
pub mod Shallow
pub mod Majority
pub mod OneSplit
mod Tests
use expert_octo_enigma.Prelude.{
  ℕ, zero, suc, ◌+◌, Bool, true, false, ◌||◌, Option, none, some, List, [], ◌∷◌, ◌++◌,
  if◌then◌else◌, ltb, ◌==◌, length, map, not,
}
use expert_octo_enigma.Prelude.Int.{ℤ, pos, negsuc, ltb_ℤ, eq_ℤ}
use expert_octo_enigma.Float.{Float, nought}
use expert_octo_enigma.Lock.{Outcome, done, crashed, and_then}
use expert_octo_enigma.DecisionTree.Splitting.{
  Sample, labels_of, majority_label, is_pure, find_best_split, split_data, is_empty,
}

pub record TreeNode (F : Type 0) : Type 0 where
  pub feature_idx : ℤ
  pub threshold : F
  pub left_child : ℤ
  pub right_child : ℤ
  pub class_label : ℤ
  pub is_leaf : Bool

pub record DecisionTree (F : Type 0) : Type 0 where
  pub nodes : List (TreeNode F)
  pub max_depth : ℤ

pub data TrainError : Type 0 where
  empty_input size_mismatch : TrainError

unfoldable pub depth_limit : ℤ → ℕ
depth_limit (pos zero) = 3
depth_limit (pos (suc n)) = suc n
depth_limit (negsuc n) = 3

module _ {F : Type 0} ⦃f : Float F⦄ where
  pub new_decision_tree : ℤ → DecisionTree F
  new_decision_tree max_depth = record { nodes = []; max_depth = max_depth }

  abbrev pub leaf : ℤ → TreeNode F
  leaf label = record {
    feature_idx = negsuc 0;
    threshold = nought;
    left_child = negsuc 0;
    right_child = negsuc 0;
    class_label = label;
    is_leaf = true;
  }

  -- The root and the two lists, each with the indexes that it has by itself.
  unfoldable pub join_nodes : ℤ → ℕ → F → List (TreeNode F) → List (TreeNode F) → List (TreeNode F)
  join_nodes label feature threshold left right =
      record {
        feature_idx = pos feature;
        threshold = threshold;
        left_child = pos 1;
        right_child = pos (1 + length left);
        class_label = label;
        is_leaf = false;
      }
        ∷ left
      ++ right

  unfoldable pub branch :
      (List (Sample F) → Outcome (List (TreeNode F)))
      → ℤ
      → ℕ
      → F
      → List (Sample F) × List (Sample F)
      → Outcome (List (TreeNode F))
  branch build label feature threshold (left, right) =
      if is_empty left || is_empty right
      then done (leaf label ∷ [])
      else and_then (build left)
          (λ l. and_then (build right) (λ r. done (join_nodes label feature threshold l r)))

  unfoldable pub split_node :
      (List (Sample F) → Outcome (List (TreeNode F)))
      → List (Sample F)
      → ℤ
      → Option (ℕ × F)
      → Outcome (List (TreeNode F))
  unfolding branch
  split_node build samples label none = done (leaf label ∷ [])
  split_node build samples label (some (feature, threshold)) =
      and_then (split_data feature threshold samples) (branch build label feature threshold)

  -- `buildNode`, with the depth that is left.
  unfoldable pub build_node : ℕ → List (Sample F) → Outcome (List (TreeNode F))
  unfolding split_node
  build_node zero samples = done (leaf (majority_label (labels_of samples)) ∷ [])
  build_node (suc n) samples =
      let label = majority_label (labels_of samples) in
      if is_pure (labels_of samples)
      then done (leaf label ∷ [])
      else and_then (find_best_split samples) (split_node (build_node n) samples label)

  unfoldable pub pair_up : List (List F) → List ℤ → List (Sample F)
  pair_up [] labels = []
  pair_up (x ∷ xs) [] = []
  pair_up (x ∷ xs) (l ∷ ls) = (x, l) ∷ pair_up xs ls

  unfoldable pub train :
      List (List F) → List ℤ → DecisionTree F → Outcome (Option TrainError × DecisionTree F)
  unfolding pair_up build_node
  train features labels tree =
      if is_empty features || is_empty labels
      then done (some empty_input, tree)
      else if not (length features == length labels)
      then done (some size_mismatch, tree)
      else and_then (build_node (depth_limit tree.max_depth) (pair_up features labels))
          (λ nodes. done (none, record tree { nodes = nodes }))
