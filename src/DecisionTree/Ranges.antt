-- ===== src/DecisionTree/Ranges.antt =====
-- The indexes in the trees of ml/decision_tree.go.
use expert_octo_enigma.Prelude.{
  ℕ, zero, suc, ◌+◌, ◌≤◌, ◌<◌, ◌≡◌, refl, subst, true, false, none, some, List, [], ◌∷◌, ◌⊎◌, inl,
  inr, arith, All, All-append, length, length-append, Bool-cases, Option-cases, get_elem?-some,
}
use expert_octo_enigma.Prelude.Int.{ℤ, pos}
use expert_octo_enigma.Float.{Float}
use expert_octo_enigma.Lock.{done}
use expert_octo_enigma.DecisionTree.{
  TreeNode, DecisionTree, join_nodes, pair_up, train, depth_limit,
}
use expert_octo_enigma.DecisionTree.Splitting.{Sample}
use expert_octo_enigma.DecisionTree.Growing.{IsGrown, build_grown}
use expert_octo_enigma.DecisionTree.Training.{train_built}
use expert_octo_enigma.DecisionTree.Predicting.{
  invalid_state, at_index, at_index-All, predict_from, next_index, predict, started,
}

-- The index of one of `n` places.
Within : ℕ → ℤ → Type 0
Within n i = (a : ℕ) × (i ≡ pos a) × (a < n)

module _ {F : Type 0} where
  abbrev InRange : ℕ → TreeNode F → Type 0
  InRange n node = (node.is_leaf ≡ true) ⊎ (Within n node.left_child × Within n node.right_child)

  InRange-mono :
      (n m : ℕ) (nodes : List (TreeNode F)) → n ≤ m → All (InRange n) nodes → All (InRange m) nodes
  unfolding Within
  InRange-mono n m [] l h = tt
  InRange-mono n m (x ∷ xs) l (inl e, h) = (inl e, InRange-mono n m xs l h)
  InRange-mono n m (x ∷ xs) l (inr ((a, p, q), (b, s, t)), h) =
      (inr ((a, p, omega arith), (b, s, omega arith)), InRange-mono n m xs l h)

  at_index-Within :
      (nodes : List (TreeNode F)) (i : ℤ)
      → Within (length nodes) i
      → (node : TreeNode F) × (at_index i nodes ≡ some node)
  unfolding Within
  at_index-Within nodes i (a, p, q) = let (node, e) = get_elem?-some a nodes q in (node, rw p e)

module _ {F : Type 0} ⦃f : Float F⦄ where
  AllInRange : ℕ → List (Sample F) → List (TreeNode F) → Type 0
  AllInRange n samples nodes = (0 < length nodes) × All (InRange (length nodes)) nodes

  AllInRange-IsGrown : IsGrown AllInRange
  unfolding AllInRange join_nodes Within
  AllInRange-IsGrown = record {
    of_leaf = λ n samples m. (omega arith, (inl refl, tt));
    of_split = λ d samples left right feature threshold l r m s (hl, kl) (hr, kr).
        let n = length-append l r in
        (
          omega arith,
          (
            inr ((1, refl, omega (arith, n)), (1 + length l, refl, omega (arith, n))),
            All-append _ l r (InRange-mono (length l) _ l (omega (arith, n)) kl)
                (InRange-mono (length r) _ r (omega (arith, n)) kr),
          ),
        );
  }

  next_index-Within :
      (n : ℕ) (features : List F) (node : TreeNode F) (i : ℤ)
      → InRange n node
      → node.is_leaf ≡ false
      → next_index features node ≡ some i
      → Within n i
  unfolding next_index Within
  next_index-Within n features node i (inl t) l e = cc
  next_index-Within n features node i (inr (p, q)) l e =
      elim (Option-cases (at_index node.feature_idx features)) [
        | inl m ↦ absurd (ground (arith, m, e))
        | inr (x, m) ↦ elim (Bool-cases (f.le x node.threshold)) [
          | inl t ↦ subst (Within n) {y = i} (ground (arith, m, t, e)) p
          | inr t ↦ subst (Within n) {y = i} (ground (arith, m, t, e)) q
        ]
      ]

  predict_from-ne-invalid :
      (fuel : ℕ) (nodes : List (TreeNode F)) (features : List F) (idx : ℤ)
      → All (InRange (length nodes)) nodes
      → Within (length nodes) idx
      → ¬ (predict_from fuel nodes features idx ≡ invalid_state)
  unfolding predict_from
  predict_from-ne-invalid zero nodes features idx h w e = cc
  predict_from-ne-invalid (suc fuel) nodes features idx h w e =
      let (node, n) = at_index-Within nodes idx w in
      elim (Bool-cases node.is_leaf) [
        | inl l ↦ ground (arith, n, l, e)
        | inr l ↦ elim (Option-cases (next_index features node)) [
          | inl q ↦ ground (arith, n, l, q, e)
          | inr (next, q) ↦
              predict_from-ne-invalid fuel nodes features next h
                (next_index-Within (length nodes) features node next
                  (at_index-All (InRange (length nodes)) idx nodes node h n) l q)
                (ground (arith, n, l, q, e))
        ]
      ]

  started-ne-invalid :
      (fuel : ℕ) (nodes : List (TreeNode F)) (features : List F)
      → All (InRange (length nodes)) nodes
      → ¬ (started fuel nodes features ≡ invalid_state)
  unfolding Within
  started-ne-invalid fuel [] features h e = cc
  started-ne-invalid fuel (n ∷ ns) features h e =
      predict_from-ne-invalid fuel (n ∷ ns) features (pos 0) h (0, refl, omega arith) e

  -- After a training without an error no prediction, with whatever fuel, reports an invalid state of
  -- the tree.
  pub trained-ne-invalid :
      (features : List (List F)) (labels : List ℤ) (tree trained : DecisionTree F) (fuel : ℕ)
      (x : List F)
      → train features labels tree ≡ done (none, trained)
      → ¬ (predict fuel x trained ≡ invalid_state)
  unfolding predict AllInRange
  trained-ne-invalid features labels tree trained fuel x e p =
      let (m, b) = train_built features labels tree trained e in
      let (k, h) =
        build_grown AllInRange AllInRange-IsGrown (depth_limit tree.max_depth)
          (pair_up features labels) trained.nodes m b in
      started-ne-invalid fuel trained.nodes x h p
