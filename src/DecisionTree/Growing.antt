-- ===== src/DecisionTree/Growing.antt =====
-- Induction over the trees that buildNode of ml/decision_tree.go builds.
use expert_octo_enigma.Prelude.{
  ℕ, zero, suc, ◌≡◌, refl, subst, false, Option, none, some, List, [], ◌∷◌, arith, Bool-cases, inl,
  inr,
}
use expert_octo_enigma.Prelude.Int.{ℤ}
use expert_octo_enigma.Float.{Float}
use expert_octo_enigma.Lock.{Outcome, done, and_then, and_then-eq-done, done-injective}
use expert_octo_enigma.DecisionTree.{TreeNode, leaf, join_nodes, branch, split_node, build_node}
use expert_octo_enigma.DecisionTree.Splitting.{
  Sample, labels_of, is_empty, majority_label, is_pure, find_best_split, split_data,
}

abbrev majority : {F : Type 0} → List (Sample F) → ℤ
majority samples = majority_label (labels_of samples)

-- A relation of the depth that is left, samples and nodes: it holds of a leaf, and of a split when it
-- holds of both sides with one less.
pub record IsGrown {F : Type 0} ⦃f : Float F⦄ (Q : ℕ → List (Sample F) → List (TreeNode F) → Type 0)
    : Type 0 where
  pub of_leaf :
      (n : ℕ) (samples : List (Sample F))
      → is_empty samples ≡ false
      → Q n samples (leaf (majority_label (labels_of samples)) ∷ [])
  pub of_split :
      (n : ℕ) (samples left right : List (Sample F)) (feature : ℕ) (threshold : F)
      (l r : List (TreeNode F))
      → is_empty samples ≡ false
      → split_data feature threshold samples ≡ done (left, right)
      → Q n left l
      → Q n right r
      → Q (suc n) samples (join_nodes (majority_label (labels_of samples)) feature threshold l r)

module _ {F : Type 0} ⦃f : Float F⦄ (Q : ℕ → List (Sample F) → List (TreeNode F) → Type 0)
    (g : IsGrown Q) where
  leaf_grown :
      (n : ℕ) (samples : List (Sample F)) (nodes : List (TreeNode F))
      → is_empty samples ≡ false
      → done (leaf (majority samples) ∷ []) ≡ done nodes
      → Q n samples nodes
  leaf_grown n samples nodes m e =
      subst (Q n samples) (done-injective (leaf (majority samples) ∷ []) e) (g.of_leaf n samples m)

  branch_grown :
      (n : ℕ) (build : List (Sample F) → Outcome (List (TreeNode F)))
      → ((xs : List (Sample F)) (l : List (TreeNode F))
          → is_empty xs ≡ false
          → build xs ≡ done l
          → Q n xs l)
      → (samples left right : List (Sample F)) (feature : ℕ) (threshold : F)
        (nodes : List (TreeNode F))
      → is_empty samples ≡ false
      → split_data feature threshold samples ≡ done (left, right)
      → branch build (majority samples) feature threshold (left, right) ≡ done nodes
      → Q (suc n) samples nodes
  unfolding branch
  branch_grown n build k samples [] right feature threshold nodes m s e =
      leaf_grown (suc n) samples nodes m e
  branch_grown n build k samples (x ∷ xs) [] feature threshold nodes m s e =
      leaf_grown (suc n) samples nodes m e
  branch_grown n build k samples (x ∷ xs) (y ∷ ys) feature threshold nodes m s e =
      let (l, a, b) = and_then-eq-done (build (x ∷ xs)) _ e in
      let (r, c, d) = and_then-eq-done (build (y ∷ ys)) _ b in
      subst (Q (suc n) samples)
        (done-injective (join_nodes (majority samples) feature threshold l r) d)
        (g.of_split n samples (x ∷ xs) (y ∷ ys) feature threshold l r m s (k (x ∷ xs) l refl a)
          (k (y ∷ ys) r refl c))

  split_grown :
      (n : ℕ) (build : List (Sample F) → Outcome (List (TreeNode F)))
      → ((xs : List (Sample F)) (l : List (TreeNode F))
          → is_empty xs ≡ false
          → build xs ≡ done l
          → Q n xs l)
      → (samples : List (Sample F)) (o : Option (ℕ × F)) (nodes : List (TreeNode F))
      → is_empty samples ≡ false
      → split_node build samples (majority samples) o ≡ done nodes
      → Q (suc n) samples nodes
  unfolding split_node
  split_grown n build k samples none nodes m e = leaf_grown (suc n) samples nodes m e
  split_grown n build k samples (some (feature, threshold)) nodes m e =
      let (sides, a, b) = and_then-eq-done (split_data feature threshold samples) _ e in
      branch_grown n build k samples sides.0 sides.1 feature threshold nodes m a b

  -- The relation holds of the samples and the nodes that are built of them.
  pub build_grown :
      (n : ℕ) (samples : List (Sample F)) (nodes : List (TreeNode F))
      → is_empty samples ≡ false
      → build_node n samples ≡ done nodes
      → Q n samples nodes
  unfolding build_node
  build_grown zero samples nodes m e = leaf_grown zero samples nodes m e
  build_grown (suc n) samples nodes m e = elim (Bool-cases (is_pure (labels_of samples))) [
    | inl pure ↦ leaf_grown (suc n) samples nodes m (ground (arith, pure, e))
    | inr mixed ↦
        let run : and_then (find_best_split samples)
              (split_node (build_node n) samples (majority samples))
            ≡ done nodes =
          ground (arith, mixed, e) in
        let (o, a, b) = and_then-eq-done (find_best_split samples) _ run in
        split_grown n (build_node n) (build_grown n) samples o nodes m b
  ]
