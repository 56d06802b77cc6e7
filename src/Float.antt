-- ===== src/Float.antt =====
-- What the program does with a `float64`. The language's floating point is a parameter: a type with
-- the operations and comparisons that the code uses, as an instance argument. `lit n d` is the
-- decimal literal n / 10^d, and `of_int` the conversion `float64(n)`.
pub mod Whole
pub mod Exact
pub mod Signed
use expert_octo_enigma.Prelude.{ℕ, ◌≡◌, ◌⊎◌, Bool, true, not}
use expert_octo_enigma.Prelude.Int.{ℤ}

pub record Float (F : Type 0) : Type 0 where
  pub lit : ℕ → ℕ → F
  pub of_int : ℤ → F
  pub add : F → F → F
  pub sub : F → F → F
  pub mul : F → F → F
  pub div : F → F → F
  pub neg : F → F
  pub le : F → F → Bool
  pub lt : F → F → Bool
  pub eq : F → F → Bool

abbrev pub nought : {F : Type 0} ⦃f : Float F⦄ → F
nought ⦃f⦄ = f.lit 0 0

-- IEEE 754 order: a value that is not `<=` itself is NaN, every comparison with it is false, and the
-- other values are ordered by `<=`, with `<` its strict part.
pub record IsOrdered (F : Type 0) ⦃f : Float F⦄ : Type 0 where
  pub nought_refl : f.le (f.lit 0 0) (f.lit 0 0) ≡ true
  pub refl_of_le : (x y : F) → f.le x y ≡ true → (f.le x x ≡ true) × (f.le y y ≡ true)
  pub le_trans : (x y z : F) → f.le x y ≡ true → f.le y z ≡ true → f.le x z ≡ true
  pub le_total :
      (x y : F) → f.le x x ≡ true → f.le y y ≡ true → (f.le x y ≡ true) ⊎ (f.le y x ≡ true)
  pub lt_iff : (x y : F) → f.le x x ≡ true → f.le y y ≡ true → f.lt x y ≡ not (f.le y x)
  pub lt_nan : (x y : F) → f.lt x y ≡ true → (f.le x x ≡ true) × (f.le y y ≡ true)
