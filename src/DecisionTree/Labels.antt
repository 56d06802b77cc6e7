-- ===== src/DecisionTree/Labels.antt =====
-- The labels that ml/decision_tree.go predicts.
use expert_octo_enigma.Prelude.{
  ℕ, zero, suc, ◌≡◌, sym, subst, Bool, true, false, none, List, [], ◌∷◌, ◌++◌, inl, inr, arith, any,
  All, All-append, any-append, append-cons, Bool-cases, Option-cases,
}
use expert_octo_enigma.Prelude.Int.{ℤ, pos, negsuc, ltb_ℤ, eq_ℤ, eq_ℤ_refl}
use expert_octo_enigma.Float.{Float}
use expert_octo_enigma.Lock.{done, and_then-eq-done, done-injective}
use expert_octo_enigma.DecisionTree.{
  TreeNode, DecisionTree, join_nodes, pair_up, train, depth_limit,
}
use expert_octo_enigma.DecisionTree.Splitting.{
  Sample, labels_of, is_empty, Counts, bump, count_at, majority_from, majority_label, split_data,
  add_side, feature_of,
}
use expert_octo_enigma.DecisionTree.Growing.{IsGrown, build_grown}
use expert_octo_enigma.DecisionTree.Training.{train_built}
use expert_octo_enigma.DecisionTree.Predicting.{
  predicted, at_index, at_index-All, predict_from, next_index, predict, started,
}

module _ (P : ℤ → Type 0) where
  majority_from-All :
      (xs : List ℤ) (counts : Counts) (best most : ℤ)
      → P best
      → All P xs
      → P (majority_from xs counts best most)
  unfolding majority_from
  majority_from-All [] counts best most b h = b
  majority_from-All (x ∷ xs) counts best most b h =
      elim (Bool-cases (ltb_ℤ most (pos (count_at x (bump x counts))))) [
        | inl e ↦ rw e (majority_from-All xs (bump x counts) x _ h.0 h.1)
        | inr e ↦ rw e (majority_from-All xs (bump x counts) best most b h.1)
      ]

  majority_label-All : (x : ℤ) (xs : List ℤ) → All P (x ∷ xs) → P (majority_label (x ∷ xs))
  unfolding majority_label majority_from
  majority_label-All x xs h =
      let first : ltb_ℤ (negsuc 0) (pos (count_at x (bump x []))) ≡ true = ground arith in
      rw first (majority_from-All xs (bump x []) x _ h.0 h.1)

add_side-All :
    {A : Type 0} (P : A → Type 0) (b : Bool) (a : A) (sides : List A × List A)
    → P a
    → All P sides.0
    → All P sides.1
    → All P (add_side b a sides).0 × All P (add_side b a sides).1
add_side-All P true a (l, r) p h k = ((p, h), k)
add_side-All P false a (l, r) p h k = (h, (p, k))

module _ {F : Type 0} ⦃f : Float F⦄ (P : Sample F → Type 0) where
  -- Both sides of a split have the samples' property.
  pub split_data-All :
      (feature : ℕ) (threshold : F) (samples : List (Sample F))
      (sides : List (Sample F) × List (Sample F))
      → All P samples
      → split_data feature threshold samples ≡ done sides
      → All P sides.0 × All P sides.1
  unfolding split_data
  split_data-All feature threshold [] sides h e =
      subst (λ (z : List (Sample F) × List (Sample F)). All P z.0 × All P z.1)
        (done-injective ([], []) e) (tt, tt)
  split_data-All feature threshold (s ∷ rest) sides h e =
      let (x, a, b) = and_then-eq-done (feature_of feature s) _ e in
      let (more, c, d) = and_then-eq-done (split_data feature threshold rest) _ b in
      let (l, r) = split_data-All feature threshold rest more h.1 c in
      subst (λ (z : List (Sample F) × List (Sample F)). All P z.0 × All P z.1)
        (done-injective (add_side (f.le x threshold) s more) d)
        (add_side-All P (f.le x threshold) s more h.0 l r)

module _ {F : Type 0} ⦃f : Float F⦄ (P : ℤ → Type 0) where
  -- The nodes' labels have the samples' property.
  abbrev LabelsHave : List (TreeNode F) → Type 0
  LabelsHave = All (λ n. P n.class_label)

  All-labels_of : (samples : List (Sample F)) → All (λ x. P x.1) samples → All P (labels_of samples)
  All-labels_of [] h = tt
  All-labels_of (s ∷ rest) h = (h.0, All-labels_of rest h.1)

  majority-All :
      (samples : List (Sample F))
      → is_empty samples ≡ false
      → All (λ x. P x.1) samples
      → P (majority_label (labels_of samples))
  majority-All [] m h = cc
  majority-All (s ∷ rest) m h =
      majority_label-All P (s.1) (labels_of rest) (All-labels_of (s ∷ rest) h)

  LabelsHave-IsGrown :
      IsGrown (λ n samples nodes. All (λ (x : Sample F). P x.1) samples → LabelsHave nodes)
  unfolding join_nodes
  LabelsHave-IsGrown = record {
    of_leaf = λ n samples m h. (majority-All samples m h, tt);
    of_split = λ n samples left right feature threshold l r m s hl hr h.
        let (kl, kr) = split_data-All (λ x. P x.1) feature threshold samples (left, right) h s in
        (majority-All samples m h, All-append _ l r (hl kl) (hr kr));
  }

-- A label of the list.
abbrev pub Known : List ℤ → ℤ → Type 0
Known labels label = any (λ l. eq_ℤ l label) labels ≡ true

All-Known-append : (pre labels : List ℤ) → All (Known (pre ++ labels)) labels
All-Known-append pre [] = tt
All-Known-append pre (l ∷ ls) = (
  ground (arith, any-append (λ k. eq_ℤ k l) pre (l ∷ ls), eq_ℤ_refl l),
  subst (λ z. All (Known z) ls) (sym (append-cons pre ls l)) (All-Known-append (pre ++ l ∷ []) ls),
)

module _ {F : Type 0} ⦃f : Float F⦄ where
  pair_up-All :
      (P : ℤ → Type 0) (features : List (List F)) (labels : List ℤ)
      → All P labels
      → All (λ s. P s.1) (pair_up features labels)
  unfolding pair_up
  pair_up-All P [] labels h = tt
  pair_up-All P (x ∷ xs) [] h = tt
  pair_up-All P (x ∷ xs) (l ∷ ls) h = (h.0, pair_up-All P xs ls h.1)

  predict_from-LabelsHave :
      (P : ℤ → Type 0) (fuel : ℕ) (nodes : List (TreeNode F)) (features : List F) (idx label : ℤ)
      (confidence : F)
      → LabelsHave P nodes
      → predict_from fuel nodes features idx ≡ predicted label confidence
      → P label
  unfolding predict_from
  predict_from-LabelsHave P zero nodes features idx label confidence h e = cc
  predict_from-LabelsHave P (suc fuel) nodes features idx label confidence h e =
      elim (Option-cases (at_index idx nodes)) [
        | inl n ↦ absurd (ground (arith, n, e))
        | inr (node, n) ↦ elim (Bool-cases node.is_leaf) [
          | inl l ↦
              let same : node.class_label ≡ label = ground (arith, n, l, e) in
              subst P same (at_index-All (λ (m : TreeNode F). P m.class_label) idx nodes node h n)
          | inr l ↦ elim (Option-cases (next_index features node)) [
            | inl q ↦ absurd (ground (arith, n, l, q, e))
            | inr (next, q) ↦
                predict_from-LabelsHave P fuel nodes features next label confidence h
                  (ground (arith, n, l, q, e))
          ]
        ]
      ]

  started-LabelsHave :
      (P : ℤ → Type 0) (fuel : ℕ) (nodes : List (TreeNode F)) (features : List F) (label : ℤ)
      (confidence : F)
      → LabelsHave P nodes
      → started fuel nodes features ≡ predicted label confidence
      → P label
  started-LabelsHave P fuel [] features label confidence h e = cc
  started-LabelsHave P fuel (n ∷ ns) features label confidence h e =
      predict_from-LabelsHave P fuel (n ∷ ns) features (pos 0) label confidence h e

  -- After a training without an error, every label that the tree predicts, with whatever fuel, is one
  -- of the labels that it was trained on.
  pub predicted_label-Known :
      (features : List (List F)) (labels : List ℤ) (tree trained : DecisionTree F) (fuel : ℕ)
      (x : List F) (label : ℤ) (confidence : F)
      → train features labels tree ≡ done (none, trained)
      → predict fuel x trained ≡ predicted label confidence
      → Known labels label
  unfolding predict
  predicted_label-Known features labels tree trained fuel x label confidence e p =
      let (m, b) = train_built features labels tree trained e in
      started-LabelsHave (Known labels) fuel trained.nodes x label confidence
        (build_grown _ (LabelsHave-IsGrown (Known labels)) (depth_limit tree.max_depth)
          (pair_up features labels) trained.nodes m b
          (pair_up-All (Known labels) features labels (All-Known-append [] labels)))
        p
