-- ===== src/DecisionTree/Predicting.antt =====
-- Predict of ml/decision_tree.go, on fuel, and the file of a tree. What the file holds is an argument.
use expert_octo_enigma.Prelude.{
  ◌≡◌, subst, All, arith, ℕ, zero, suc, Bool, true, false, Option, none, some, List, [], ◌∷◌,
  if◌then◌else◌, get_elem?,
}
use expert_octo_enigma.Prelude.Int.{ℤ, pos, negsuc, ltb_ℤ}
use expert_octo_enigma.Float.{Float, nought}
use expert_octo_enigma.DecisionTree.{TreeNode, DecisionTree}

pub data Prediction (F : Type 0) : Type 0 where
  predicted : ℤ → F → Prediction F
  not_trained feature_out_of_range invalid_state : Prediction F
  running : Prediction F

abbrev pub at_index : {A : Type 0} → ℤ → List A → Option A
at_index (pos n) xs = get_elem? xs n
at_index (negsuc n) xs = none

pub at_index-All :
    {A : Type 0} (P : A → Type 0) (idx : ℤ) (xs : List A) (x : A)
    → All P xs
    → at_index idx xs ≡ some x
    → P x
at_index-All P (pos n) [] x h e = cc
at_index-All P (pos zero) (y ∷ ys) x h e = subst P (ground (arith, e)) h.0
at_index-All P (pos (suc n)) (y ∷ ys) x h e = at_index-All P (pos n) ys x h.1 e
at_index-All P (negsuc n) xs x h e = cc

module _ {F : Type 0} ⦃f : Float F⦄ where
  unfoldable pub node_confidence : ℤ → F
  node_confidence idx = if ltb_ℤ idx (pos 0) then nought else f.lit 6 1

  -- The child of a node, `none` for a feature that is out of range.
  unfoldable pub next_index : List F → TreeNode F → Option ℤ
  next_index features node = elim (at_index node.feature_idx features) [
    | none ↦ none
    | some x ↦ some (if f.le x node.threshold then node.left_child else node.right_child)
  ]

  -- `running` when the fuel is out. The index is checked before the node is read.
  unfoldable pub predict_from : ℕ → List (TreeNode F) → List F → ℤ → Prediction F
  unfolding next_index node_confidence
  predict_from zero nodes features idx = running
  predict_from (suc fuel) nodes features idx = elim (at_index idx nodes) [
    | none ↦ invalid_state
    | some node ↦
        if node.is_leaf
        then predicted node.class_label (node_confidence idx)
        else elim (next_index features node) [
          | none ↦ feature_out_of_range
          | some next ↦ predict_from fuel nodes features next
        ]
  ]

  abbrev pub started : ℕ → List (TreeNode F) → List F → Prediction F
  started fuel [] features = not_trained
  started fuel (n ∷ ns) features = predict_from fuel (n ∷ ns) features (pos 0)

  unfoldable pub predict : ℕ → List F → DecisionTree F → Prediction F
  unfolding predict_from
  predict fuel features tree = started fuel tree.nodes features

  -- `none` for a model that is not trained, or that is not written.
  pub save : {B : Type 0} → (List (TreeNode F) → Option B) → DecisionTree F → Option B
  save encode tree = elim tree.nodes [ [] ↦ none | n ∷ ns ↦ encode (n ∷ ns) ]

  -- Whether the file was read.
  pub load_tree : Option (List (TreeNode F)) → DecisionTree F → Bool × DecisionTree F
  load_tree none tree = (false, tree)
  load_tree (some nodes) tree = (true, record tree { nodes = nodes })
