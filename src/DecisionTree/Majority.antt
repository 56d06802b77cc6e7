-- ===== src/DecisionTree/Majority.antt =====
-- What majorityLabel of ml/decision_tree.go chooses.
use expert_octo_enigma.Prelude.{
  ℕ, suc, ◌+◌, ◌≤◌, ◌<◌, ◌≡◌, refl, sym, subst, ◌∙◌, true, List, [], ◌∷◌, inl, inr, arith, keep,
  length, Bool-cases, if◌then◌else◌,
}
use expert_octo_enigma.Prelude.Int.{ℤ, pos, negsuc, ltb_ℤ, eq_ℤ, eq_ℤ_refl, eq_ℤ_iff}
use expert_octo_enigma.DecisionTree.Splitting.{
  Counts, bump, count_at, majority_from, majority_label,
}

-- How often the label stands in the list.
abbrev pub occurrences : ℤ → List ℤ → ℕ
occurrences label xs = length (keep (λ x. eq_ℤ x label) xs)

count_at-bump :
    (x k : ℤ) (counts : Counts)
    → count_at k (bump x counts) ≡ (if eq_ℤ x k then suc (count_at k counts) else count_at k counts)
unfolding bump count_at
count_at-bump x k [] = ground arith
count_at-bump x k ((other, n) ∷ rest) =
    ground (arith, eq_ℤ_iff other x, eq_ℤ_iff other k, eq_ℤ_iff x k, count_at-bump x k rest)

-- No label of the counts is above the best one.
IsMost : Counts → ℤ → Type 0
IsMost counts best = (k : ℤ) → count_at k counts ≤ count_at best counts

score : Counts → List ℤ → ℤ → ℕ
score counts xs k = count_at k counts + occurrences k xs

score-bump :
    (x k : ℤ) (xs : List ℤ) (counts : Counts) → score counts (x ∷ xs) k ≡ score (bump x counts) xs k
unfolding score
score-bump x k xs counts = ground (arith, count_at-bump x k counts)

bump-IsMost :
    (x best : ℤ) (counts : Counts)
    → IsMost counts best
    → count_at best counts < count_at x (bump x counts)
    → IsMost (bump x counts) x
unfolding IsMost
bump-IsMost x best counts h l k =
    ground (arith, h k, l, eq_ℤ_iff x k, count_at-bump x k counts, count_at-bump x x counts)

count_at-bump_below :
    (x best : ℤ) (counts : Counts)
    → count_at x (bump x counts) ≤ count_at best counts
    → count_at best (bump x counts) ≡ count_at best counts
count_at-bump_below x best counts l =
    ground (arith, l, eq_ℤ_iff x best, count_at-bump x best counts)

bump-IsMost_below :
    (x best : ℤ) (counts : Counts)
    → IsMost counts best
    → count_at x (bump x counts) ≤ count_at best counts
    → IsMost (bump x counts) best
unfolding IsMost
bump-IsMost_below x best counts h l k =
    ground
      (arith, h k, l, eq_ℤ_iff x k, count_at-bump x k counts, count_at-bump_below x best counts l)

score-nil :
    (best : ℤ) (counts : Counts)
    → IsMost counts best
    → (k : ℤ) → score counts [] k ≤ score counts [] best
unfolding score IsMost
score-nil best counts h k = omega (arith, h k)

majority_from-most :
    (xs : List ℤ) (counts : Counts) (best : ℤ) (most : ℕ)
    → IsMost counts best
    → most ≡ count_at best counts
    → (k : ℤ) → score counts xs k ≤ score counts xs (majority_from xs counts best (pos most))
unfolding majority_from
majority_from-most [] counts best most h m k = score-nil best counts h k
majority_from-most (x ∷ xs) counts best most h m k =
    elim (Bool-cases (ltb_ℤ (pos most) (pos (count_at x (bump x counts))))) [
      | inl e ↦
          let ih =
            majority_from-most xs (bump x counts) x _
              (bump-IsMost x best counts h (ground (arith, e, m))) refl k in
          rw (e, score-bump x k xs counts, score-bump x _ xs counts) ih
      | inr e ↦
          let below : count_at x (bump x counts) ≤ count_at best counts = ground (arith, e, m) in
          let ih =
            majority_from-most xs (bump x counts) best most
              (bump-IsMost_below x best counts h below)
              (m ∙ sym (count_at-bump_below x best counts below)) k in
          rw (e, score-bump x k xs counts, score-bump x _ xs counts) ih
    ]

first-IsMost : (x : ℤ) → IsMost (bump x []) x
unfolding IsMost count_at
first-IsMost x k = ground (arith, count_at-bump x k [], count_at-bump x x [], eq_ℤ_refl x)

score-none : (k : ℤ) (xs : List ℤ) → score [] xs k ≡ occurrences k xs
unfolding score count_at
score-none k xs = omega arith

majority_label_first :
    (x : ℤ) (xs : List ℤ)
    → majority_label (x ∷ xs) ≡ majority_from xs (bump x []) x (pos (count_at x (bump x [])))
unfolding majority_label majority_from
majority_label_first x xs =
    let first : ltb_ℤ (negsuc 0) (pos (count_at x (bump x []))) ≡ true = ground arith in
    rw first refl

score-counted :
    (x k m : ℤ) (xs : List ℤ)
    → score (bump x []) xs k ≤ score (bump x []) xs m
    → occurrences k (x ∷ xs) ≤ occurrences m (x ∷ xs)
score-counted x k m xs h = omega (
  arith,
  h,
  score-bump x k xs [],
  score-bump x m xs [],
  score-none k (x ∷ xs),
  score-none m (x ∷ xs),
)

-- No label stands more often in a list of labels than the one that is chosen.
pub majority_label-most :
    (x : ℤ) (xs : List ℤ) (k : ℤ)
    → occurrences k (x ∷ xs) ≤ occurrences (majority_label (x ∷ xs)) (x ∷ xs)
majority_label-most x xs k =
    subst (λ m. occurrences k (x ∷ xs) ≤ occurrences m (x ∷ xs)) (sym (majority_label_first x xs))
      (score-counted x k _ xs (majority_from-most xs (bump x []) x _ (first-IsMost x) refl k))
