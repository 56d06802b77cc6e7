-- ===== src/DecisionTree/Splitting.antt =====
-- The choice of a split in ml/decision_tree.go. A map of counts is an association list, in the order in
-- which the labels first occur; Go leaves the order of the sum in `gini` open.
use expert_octo_enigma.Prelude.{
  ℕ, zero, suc, ◌-◌, ◌*◌, ◌/◌, ◌%◌, ◌^◌, Bool, true, false, not, ◌||◌, Option, none, some, List, [],
  ◌∷◌, if◌then◌else◌, ◌==◌, length, map, get_elem?,
}
use expert_octo_enigma.Prelude.Int.{ℤ, pos, negsuc, ltb_ℤ, eq_ℤ}
use expert_octo_enigma.Float.{Float, nought}
use expert_octo_enigma.Lock.{Outcome, done, crashed, and_then}

-- The features and the label.
abbrev pub Sample : Type 0 → Type 0
Sample F = List F × ℤ

abbrev pub labels_of : {F : Type 0} → List (Sample F) → List ℤ
labels_of = map (λ s. s.1)

abbrev pub is_empty : {A : Type 0} → List A → Bool
is_empty [] = true
is_empty (x ∷ xs) = false

abbrev pub Counts : Type 0
Counts = List (ℤ × ℕ)

-- `counts[label]++`
unfoldable pub bump : ℤ → Counts → Counts
bump label [] = (label, 1) ∷ []
bump label ((other, n) ∷ rest) =
    if eq_ℤ other label then (other, suc n) ∷ rest else (other, n) ∷ bump label rest

unfoldable pub count_at : ℤ → Counts → ℕ
count_at label [] = 0
count_at label ((other, n) ∷ rest) = if eq_ℤ other label then n else count_at label rest

unfoldable pub majority_from : List ℤ → Counts → ℤ → ℤ → ℤ
majority_from [] counts best most = best
majority_from (x ∷ xs) counts best most =
    let more = majority_from xs (bump x counts) in
    let n = pos (count_at x (bump x counts)) in if ltb_ℤ most n then more x n else more best most

unfoldable pub majority_label : List ℤ → ℤ
unfolding majority_from
majority_label labels = majority_from labels [] (pos 0) (negsuc 0)

all_equal : ℤ → List ℤ → Bool
all_equal first [] = true
all_equal first (x ∷ xs) =
    let rest = all_equal first xs in if not (eq_ℤ x first) then false else rest

unfoldable pub is_pure : List ℤ → Bool
unfolding all_equal
is_pure [] = true
is_pure (x ∷ xs) = all_equal x xs

tally : List ℤ → Counts → Counts
unfolding bump
tally [] counts = counts
tally (x ∷ xs) counts = tally xs (bump x counts)

abbrev pub add_side : {A : Type 0} → Bool → A → List A × List A → List A × List A
add_side true a (left, right) = (a ∷ left, right)
add_side false a (left, right) = (left, a ∷ right)

-- A split that is sought: the feature, its threshold, and the impurity that it leaves.
pub record Best (F : Type 0) : Type 0 where
  pub feature : Option ℕ
  pub threshold : F
  pub impurity : F

-- `math.MaxFloat64`
abbrev max_float : {F : Type 0} ⦃f : Float F⦄ → F
max_float ⦃f⦄ = f.lit (9_007_199_254_740_991 * 2 ^ 971) 0

module _ {F : Type 0} ⦃f : Float F⦄ where
  gini_from : Counts → F → F → F
  gini_from [] total impurity = impurity
  gini_from ((label, n) ∷ rest) total impurity =
      let prob = f.div (f.of_int (pos n)) total in
      gini_from rest total (f.sub impurity (f.mul prob prob))

  pub gini : List ℤ → F
  unfolding gini_from tally
  gini [] = nought
  gini (x ∷ xs) = gini_from (tally (x ∷ xs) []) (f.of_int (pos (length (x ∷ xs)))) (f.lit 1 0)

  pub weighted_gini : List ℤ → List ℤ → F
  unfolding gini
  weighted_gini left right =
      let l = f.of_int (pos (length left)) in
      let r = f.of_int (pos (length right)) in
      let total = f.add l r in
      f.add (f.mul (f.div l total) (gini left)) (f.mul (f.div r total) (gini right))

  -- A value moves down past the greater ones; the values before it stand in reverse.
  sink : F → List F → List F
  sink x [] = x ∷ []
  sink x (y ∷ ys) = if f.lt x y then y ∷ sink x ys else x ∷ y ∷ ys

  sort_from : List F → List F → List F
  sort_from [] sorted = sorted
  sort_from (x ∷ xs) sorted = sort_from xs (sink x sorted)

  turn : List F → List F → List F
  turn [] ys = ys
  turn (x ∷ xs) ys = turn xs (x ∷ ys)

  pub sort_floats : List F → List F
  unfolding sort_from sink turn
  sort_floats values = turn (sort_from values []) []

  abbrev at_or_nought : List F → ℕ → F
  at_or_nought xs i = elim (get_elem? xs i) [ none ↦ nought | some x ↦ x ]

  -- 0 for no values; the indexes are in range.
  pub median : List F → F
  unfolding sort_floats
  median [] = nought
  median (x ∷ xs) =
      let sorted = sort_floats (x ∷ xs) in
      let mid = length sorted / 2 in
      if length sorted % 2 == 0
      then f.div (f.add (at_or_nought sorted (mid - 1)) (at_or_nought sorted mid)) (f.lit 2 0)
      else at_or_nought sorted mid

  -- `features[i][idx]`
  unfoldable pub feature_of : ℕ → Sample F → Outcome F
  feature_of idx s = elim (get_elem? s.0 idx) [ none ↦ crashed | some x ↦ done x ]

  column : ℕ → List (Sample F) → Outcome (List F)
  unfolding feature_of
  column idx [] = done []
  column idx (s ∷ rest) =
      and_then (feature_of idx s) (λ x. and_then (column idx rest) (λ xs. done (x ∷ xs)))

  unfoldable pub split_data : ℕ → F → List (Sample F) → Outcome (List (Sample F) × List (Sample F))
  unfolding feature_of
  split_data idx threshold [] = done ([], [])
  split_data idx threshold (s ∷ rest) = and_then (feature_of idx s) (λ x.
      and_then (split_data idx threshold rest)
        (λ sides. done (add_side (f.le x threshold) s sides)))

  pub split_labels : ℕ → F → List (Sample F) → Outcome (List ℤ × List ℤ)
  unfolding feature_of
  split_labels idx threshold [] = done ([], [])
  split_labels idx threshold (s ∷ rest) = and_then (feature_of idx s) (λ x.
      and_then (split_labels idx threshold rest)
        (λ sides. done (add_side (f.le x threshold) (s.1) sides)))

  improved : ℕ → F → List ℤ × List ℤ → Best F → Best F
  unfolding weighted_gini
  improved idx threshold (left, right) best =
      if is_empty left || is_empty right
      then best
      else if f.lt (weighted_gini left right) best.impurity
      then record { feature = some idx; threshold = threshold; impurity = weighted_gini left right }
      else best

  try_feature : ℕ → List (Sample F) → Best F → Outcome (Best F)
  unfolding improved median column split_labels
  try_feature idx samples best = and_then (column idx samples) (λ values.
      and_then (split_labels idx (median values) samples)
        (λ sides. done (improved idx (median values) sides best)))

  -- With `n` features from `idx` on.
  search_from : ℕ → ℕ → List (Sample F) → Best F → Outcome (Best F)
  unfolding try_feature
  search_from zero idx samples best = done best
  search_from (suc n) idx samples best =
      and_then (try_feature idx samples best) (search_from n (suc idx) samples)

  abbrev found : Best F → Option (ℕ × F)
  found best = elim best.feature [ none ↦ none | some idx ↦ some (idx, best.threshold) ]

  unfoldable pub find_best_split : List (Sample F) → Outcome (Option (ℕ × F))
  unfolding search_from
  find_best_split [] = crashed
  find_best_split (s ∷ rest) =
      and_then
        (search_from (length s.0) 0 (s ∷ rest)
          (record { feature = none; threshold = nought; impurity = max_float }))
        (λ best. done (found best))
