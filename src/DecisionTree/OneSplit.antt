-- ===== src/DecisionTree/OneSplit.antt =====
-- What a tree of ml/decision_tree.go with one split predicts.
use expert_octo_enigma.Prelude.{
  ℕ, zero, suc, ◌≤◌, ◌≡◌, refl, ap, subst, ◌∙◌, Bool, true, false, some, none, List, [], ◌∷◌, ◌⊎◌,
  inl, inr, arith, Bool-cases, if◌then◌else◌, get_elem?,
}
use expert_octo_enigma.Prelude.Int.{ℤ, pos}
use expert_octo_enigma.Float.{Float}
use expert_octo_enigma.Lock.{done, done-injective}
use expert_octo_enigma.DecisionTree.{
  TreeNode, DecisionTree, leaf, join_nodes, pair_up, train, depth_limit, build_node,
}
use expert_octo_enigma.DecisionTree.Splitting.{
  Sample, labels_of, is_empty, majority_label, split_data,
}
use expert_octo_enigma.DecisionTree.Growing.{IsGrown, build_grown}
use expert_octo_enigma.DecisionTree.Training.{train_built}
use expert_octo_enigma.DecisionTree.Majority.{occurrences, majority_label-most}
use expert_octo_enigma.DecisionTree.Predicting.{
  predicted, at_index, predict_from, next_index, predict, started, node_confidence,
}

abbrev majority : {F : Type 0} → List (Sample F) → ℤ
majority samples = majority_label (labels_of samples)

module _ {F : Type 0} ⦃f : Float F⦄ where
  majority-most :
      (k : ℤ) (samples : List (Sample F))
      → is_empty samples ≡ false
      → occurrences k (labels_of samples) ≤ occurrences (majority samples) (labels_of samples)
  majority-most k [] e = cc
  majority-most k (s ∷ rest) e = majority_label-most (s.1) (labels_of rest) k

  abbrev split_tree : ℤ → ℕ → F → List (Sample F) → List (Sample F) → List (TreeNode F)
  split_tree label feature threshold left right =
      join_nodes label feature threshold (leaf (majority left) ∷ []) (leaf (majority right) ∷ [])

  -- The split of the samples that the nodes are made of.
  record IsSplit (samples : List (Sample F)) (nodes : List (TreeNode F)) : Type 0 where
    feature : ℕ
    threshold : F
    left : List (Sample F)
    right : List (Sample F)
    sides : split_data feature threshold samples ≡ done (left, right)
    left_some : is_empty left ≡ false
    right_some : is_empty right ≡ false
    made : nodes ≡ split_tree (majority samples) feature threshold left right

  IsLeaf : List (Sample F) → List (TreeNode F) → Type 0
  IsLeaf samples nodes = (is_empty samples ≡ false) × (nodes ≡ leaf (majority samples) ∷ [])

  IsStump : ℕ → List (Sample F) → List (TreeNode F) → Type 0
  IsStump zero samples nodes = IsLeaf samples nodes
  IsStump (suc zero) samples nodes = IsLeaf samples nodes ⊎ IsSplit samples nodes
  IsStump (suc (suc n)) samples nodes = Unit

  IsLeaf-IsStump :
      (n : ℕ) (samples : List (Sample F)) (nodes : List (TreeNode F))
      → IsLeaf samples nodes
      → IsStump n samples nodes
  unfolding IsStump
  IsLeaf-IsStump zero samples nodes h = h
  IsLeaf-IsStump (suc zero) samples nodes h = inl h
  IsLeaf-IsStump (suc (suc n)) samples nodes h = tt

  join_nodes-IsStump :
      (n : ℕ) (samples left right : List (Sample F)) (feature : ℕ) (threshold : F)
      (l r : List (TreeNode F))
      → split_data feature threshold samples ≡ done (left, right)
      → IsStump n left l
      → IsStump n right r
      → IsStump (suc n) samples (join_nodes (majority samples) feature threshold l r)
  unfolding IsStump IsLeaf
  join_nodes-IsStump zero samples left right feature threshold l r s (m, p) (m', q) = inr record {
    feature = feature;
    threshold = threshold;
    left = left;
    right = right;
    sides = s;
    left_some = m;
    right_some = m';
    made = rw (p, q) refl;
  }
  join_nodes-IsStump (suc n) samples left right feature threshold l r s h k = tt

  IsStump-IsGrown : IsGrown IsStump
  unfolding IsLeaf
  IsStump-IsGrown = record {
    of_leaf = λ n samples m. IsLeaf-IsStump n samples _ (m, refl);
    of_split = λ n samples left right feature threshold l r m s h k.
        join_nodes-IsStump n samples left right feature threshold l r s h k;
  }

  split_tree_predicts :
      (label a b : ℤ) (feature : ℕ) (threshold v : F) (x : List F)
      → get_elem? x feature ≡ some v
      → predict_from 2 (join_nodes label feature threshold (leaf a ∷ []) (leaf b ∷ [])) x (pos 0)
        ≡ predicted (if f.le v threshold then a else b) (node_confidence (pos 1))
  unfolding predict_from next_index join_nodes node_confidence
  split_tree_predicts label a b feature threshold v x e = elim (Bool-cases (f.le v threshold)) [
    | inl t ↦ ground (arith, e, t)
    | inr t ↦ ground (arith, e, t)
  ]

  -- The side of a split that a value falls on.
  abbrev pub side_of : F → F → List (Sample F) × List (Sample F) → List (Sample F)
  side_of v threshold (left, right) = if f.le v threshold then left else right

  AtMost : List (Sample F) → ℤ → ℤ → Type 0
  AtMost samples k label = occurrences k (labels_of samples) ≤ occurrences label (labels_of samples)

  side-AtMost :
      (c : Bool) (k : ℤ) (left right : List (Sample F))
      → is_empty left ≡ false
      → is_empty right ≡ false
      → AtMost (if c then left else right) k (if c then majority left else majority right)
  unfolding AtMost
  side-AtMost true k left right a b = majority-most k left a
  side-AtMost false k left right a b = majority-most k right b

  split_predicts :
      (samples : List (Sample F)) (nodes : List (TreeNode F)) (node : TreeNode F) (feature : ℕ)
      (x : List F) (v : F) (sides : List (Sample F) × List (Sample F)) (k : ℤ)
      → IsSplit samples nodes
      → at_index (pos 0) nodes ≡ some node
      → node.feature_idx ≡ pos feature
      → get_elem? x feature ≡ some v
      → split_data feature node.threshold samples ≡ done sides
      → (label : ℤ) × (started 2 nodes x ≡ predicted label (node_confidence (pos 1)))
        × AtMost (side_of v node.threshold sides) k label
  unfolding join_nodes
  split_predicts samples nodes node feature x v sides k s n i e d =
      let at_root : at_index (pos 0)
            (split_tree (majority samples) s.feature s.threshold s.left s.right)
          ≡ some node =
        subst (λ z. at_index (pos 0) z ≡ some node) s.made n in
      let same_feature : s.feature ≡ feature = ground (arith, at_root, i) in
      let same_threshold : s.threshold ≡ node.threshold = ground (arith, at_root) in
      let run =
        split_tree_predicts (majority samples) (majority s.left) (majority s.right) s.feature
          s.threshold v x (rw same_feature e) in
      let split = s.sides in
      let same : done (s.left, s.right) ≡ done sides = cc in
      (
        (if f.le v node.threshold then majority s.left else majority s.right),
        ap (λ z. started 2 z x) s.made
            ∙ run
            ∙ ap
                (λ t.
                  predicted (if f.le v t then majority s.left else majority s.right)
                    (node_confidence (pos 1)))
                same_threshold,
        subst
            (λ z.
              AtMost (side_of v node.threshold z) k
                (if f.le v node.threshold then majority s.left else majority s.right))
            (done-injective (s.left, s.right) same)
            (side-AtMost (f.le v node.threshold) k s.left s.right s.left_some s.right_some),
      )

  stump_predicts :
      (samples : List (Sample F)) (nodes : List (TreeNode F)) (node : TreeNode F) (feature : ℕ)
      (x : List F) (v : F) (sides : List (Sample F) × List (Sample F)) (k : ℤ)
      → IsStump 1 samples nodes
      → at_index (pos 0) nodes ≡ some node
      → node.is_leaf ≡ false
      → node.feature_idx ≡ pos feature
      → get_elem? x feature ≡ some v
      → split_data feature node.threshold samples ≡ done sides
      → (label : ℤ) × (started 2 nodes x ≡ predicted label (node_confidence (pos 1)))
        × AtMost (side_of v node.threshold sides) k label
  unfolding IsStump IsLeaf
  stump_predicts samples nodes node feature x v sides k (inl (m, p)) n b i e d =
      let at_leaf : at_index (pos 0) (leaf (majority samples) ∷ []) ≡ some node =
        subst (λ z. at_index (pos 0) z ≡ some node) p n in
      absurd (ground (arith, at_leaf, b))
  stump_predicts samples nodes node feature x v sides k (inr s) n b i e d =
      split_predicts samples nodes node feature x v sides k s n i e d

  -- After a training without an error to a depth of 1, when the root is no leaf and the samples are
  -- split by its feature and its threshold: a prediction of features that hold a value at that feature
  -- ends within two nodes with a label, and no label stands more often than it among the samples on the
  -- side of the threshold on which the value falls.
  pub one_split_predicts :
      (features : List (List F)) (labels : List ℤ) (tree trained : DecisionTree F)
      (root : TreeNode F) (feature : ℕ) (x : List F) (v : F)
      (sides : List (Sample F) × List (Sample F)) (k : ℤ)
      → tree.max_depth ≡ pos 1
      → train features labels tree ≡ done (none, trained)
      → at_index (pos 0) trained.nodes ≡ some root
      → root.is_leaf ≡ false
      → root.feature_idx ≡ pos feature
      → get_elem? x feature ≡ some v
      → split_data feature root.threshold (pair_up features labels) ≡ done sides
      → (label : ℤ) × (predict 2 x trained ≡ predicted label (node_confidence (pos 1)))
        × (occurrences k (labels_of (side_of v root.threshold sides))
            ≤ occurrences label (labels_of (side_of v root.threshold sides)))
  unfolding predict depth_limit AtMost
  one_split_predicts features labels tree trained root feature x v sides k d e n b i g s =
      let (m, built) = train_built features labels tree trained e in
      stump_predicts (pair_up features labels) trained.nodes root feature x v sides k
        (build_grown _ IsStump-IsGrown 1 (pair_up features labels) trained.nodes m (
          subst (λ z. build_node (depth_limit z) (pair_up features labels) ≡ done trained.nodes) d
            built))
        n b i g s
