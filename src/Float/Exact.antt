-- ===== src/Float/Exact.antt =====
-- Whole numbers as `float64`: up to 2^53 they are all represented, so that sums, differences,
-- products and quotients of whole numbers that are themselves whole and in that range are exact.
use native.Mathlib.Nat.{mul-div_cancel}
use expert_octo_enigma.Prelude.{ℕ, ◌-◌, ◌*◌, ◌≤◌, ◌<◌, ◌≡◌, arith, ltb, leb, ◌==◌}
use expert_octo_enigma.Prelude.Int.{pos}
use expert_octo_enigma.Float.{Float}
use expert_octo_enigma.Float.Whole.{Whole, whole}

abbrev pub exact_limit : ℕ
exact_limit = 9_007_199_254_740_992

abbrev pub of_ℕ : {F : Type 0} ⦃f : Float F⦄ → ℕ → F
of_ℕ ⦃f⦄ n = f.of_int (pos n)

pub record IsExact (F : Type 0) ⦃f : Float F⦄ : Type 0 where
  pub lit_of : (n : ℕ) → n ≤ exact_limit → f.lit n 0 ≡ of_ℕ n
  pub sub_of : (a b : ℕ) → b ≤ a → a ≤ exact_limit → f.sub (of_ℕ a) (of_ℕ b) ≡ of_ℕ (a - b)
  pub mul_of : (a b : ℕ) → a * b ≤ exact_limit → f.mul (of_ℕ a) (of_ℕ b) ≡ of_ℕ (a * b)
  pub div_of : (a b : ℕ) → 0 < b → a * b ≤ exact_limit → f.div (of_ℕ (a * b)) (of_ℕ b) ≡ of_ℕ a
  pub lt_of : (a b : ℕ) → a ≤ exact_limit → b ≤ exact_limit → f.lt (of_ℕ a) (of_ℕ b) ≡ ltb a b
  pub le_of : (a b : ℕ) → a ≤ exact_limit → b ≤ exact_limit → f.le (of_ℕ a) (of_ℕ b) ≡ leb a b
  pub eq_of : (a b : ℕ) → a ≤ exact_limit → b ≤ exact_limit → f.eq (of_ℕ a) (of_ℕ b) ≡ (a == b)

pub Whole-IsExact : IsExact Whole
Whole-IsExact = record {
  lit_of = λ n h. ground arith;
  sub_of = λ a b h l. ground arith;
  mul_of = λ a b l. ground arith;
  div_of = λ a b h l. ground (arith, mul-div_cancel a {n = b} h);
  lt_of = λ a b h l. ground arith;
  le_of = λ a b h l. ground arith;
  eq_of = λ a b h l. ground arith;
}
