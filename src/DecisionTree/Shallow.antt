-- ===== src/DecisionTree/Shallow.antt =====
-- The sizes of the trees of ml/decision_tree.go, and predictions of those with one split.
use native.Mathlib.Nat.{pow-suc}
use expert_octo_enigma.Prelude.{
  ℕ, zero, suc, ◌^◌, ◌<◌, ◌≡◌, refl, subst, none, List, [], ◌∷◌, ◌⊎◌, inl, inr, arith, length,
  length-append, Bool-cases, Option-cases,
}
use expert_octo_enigma.Prelude.Int.{ℤ, pos}
use expert_octo_enigma.Float.{Float}
use expert_octo_enigma.Lock.{done}
use expert_octo_enigma.DecisionTree.{
  TreeNode, DecisionTree, leaf, join_nodes, pair_up, train, depth_limit, build_node,
}
use expert_octo_enigma.DecisionTree.Growing.{IsGrown, build_grown}
use expert_octo_enigma.DecisionTree.Training.{train_built}
use expert_octo_enigma.DecisionTree.Predicting.{
  running, at_index, predict_from, next_index, predict, started,
}

two_pow_pos : (n : ℕ) → 0 < 2 ^ n
two_pow_pos zero = omega arith
two_pow_pos (suc n) = omega (arith, pow-suc 2 n, two_pow_pos n)

module _ {F : Type 0} ⦃f : Float F⦄ where
  -- One leaf, or with one split two.
  IsShallow : ℕ → List (TreeNode F) → Type 0
  IsShallow zero nodes = (a : ℤ) × (nodes ≡ leaf a ∷ [])
  IsShallow (suc zero) nodes =
      ((a : ℤ) × (nodes ≡ leaf a ∷ []))
      ⊎ ((a : ℤ) × (b : ℤ) × (label : ℤ) × (feature : ℕ) × (threshold : F) × (nodes
            ≡ join_nodes label feature threshold (leaf a ∷ []) (leaf b ∷ [])))
  IsShallow (suc (suc n)) nodes = Unit

  leaf-IsShallow :
      (n : ℕ) (a : ℤ) (nodes : List (TreeNode F)) → nodes ≡ leaf a ∷ [] → IsShallow n nodes
  unfolding IsShallow
  leaf-IsShallow zero a nodes e = (a, e)
  leaf-IsShallow (suc zero) a nodes e = inl (a, e)
  leaf-IsShallow (suc (suc n)) a nodes e = tt

  join_nodes-IsShallow :
      (n : ℕ) (label : ℤ) (feature : ℕ) (threshold : F) (l r : List (TreeNode F))
      → IsShallow n l
      → IsShallow n r
      → IsShallow (suc n) (join_nodes label feature threshold l r)
  unfolding IsShallow
  join_nodes-IsShallow zero label feature threshold l r (a, p) (b, q) =
      inr (a, b, label, feature, threshold, rw (p, q) refl)
  join_nodes-IsShallow (suc n) label feature threshold l r h k = tt

  IsShallow-IsGrown : IsGrown (λ n samples nodes. IsShallow n nodes)
  IsShallow-IsGrown = record {
    of_leaf = λ n samples m. leaf-IsShallow n _ _ refl;
    of_split = λ n samples left right feature threshold l r m s h k.
        join_nodes-IsShallow n _ feature threshold l r h k;
  }

  started_ends :
      (nodes : List (TreeNode F)) (x : List F) → IsShallow 1 nodes → ¬ (started 2 nodes x ≡ running)
  unfolding IsShallow predict_from next_index join_nodes
  started_ends nodes x (inl (a, p)) = rw p (λ e. cc)
  started_ends nodes x (inr (a, b, label, feature, threshold, p)) = rw p (λ e.
      elim (Option-cases (at_index (pos feature) x)) [
        | inl m ↦ ground (arith, m, e)
        | inr (v, m) ↦ elim (Bool-cases (f.le v threshold)) [
          | inl t ↦ ground (arith, m, t, e)
          | inr t ↦ ground (arith, m, t, e)
        ]
      ])

  -- After a training without an error to a depth of 1, every prediction ends within two nodes.
  pub one_split_ends :
      (features : List (List F)) (labels : List ℤ) (tree trained : DecisionTree F) (x : List F)
      → tree.max_depth ≡ pos 1
      → train features labels tree ≡ done (none, trained)
      → ¬ (predict 2 x trained ≡ running)
  unfolding predict depth_limit
  one_split_ends features labels tree trained x d e =
      let (m, b) = train_built features labels tree trained e in
      started_ends trained.nodes x (
        build_grown _ IsShallow-IsGrown 1 (pair_up features labels) trained.nodes m (
          subst (λ z. build_node (depth_limit z) (pair_up features labels) ≡ done trained.nodes) d
            b))

  Fits : ℕ → List (TreeNode F) → Type 0
  Fits n nodes = length nodes < 2 ^ suc n

  Fits-IsGrown : IsGrown (λ n samples nodes. Fits n nodes)
  unfolding Fits join_nodes
  Fits-IsGrown = record {
    of_leaf = λ n samples m. omega (arith, pow-suc 2 n, two_pow_pos n);
    of_split = λ n samples left right feature threshold l r m s h k.
        omega (arith, pow-suc 2 (suc n), length-append l r, h, k);
  }

  -- After a training without an error the tree has fewer nodes than two to the power of the depth limit
  -- plus one, where the limit is 3 unless it is set to a positive number.
  pub trained-lt :
      (features : List (List F)) (labels : List ℤ) (tree trained : DecisionTree F)
      → train features labels tree ≡ done (none, trained)
      → length trained.nodes < 2 ^ suc (depth_limit tree.max_depth)
  unfolding Fits
  trained-lt features labels tree trained e =
      let (m, b) = train_built features labels tree trained e in
      build_grown _ Fits-IsGrown (depth_limit tree.max_depth) (pair_up features labels)
        trained.nodes m b
