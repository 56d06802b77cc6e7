-- ===== src/Float/Whole.antt =====
-- A concrete `Float` for tests: whole numbers, with `none` for NaN, infinities and negative results.
-- It meets the order laws.
use expert_octo_enigma.Prelude.{
  ℕ, ◌+◌, ◌-◌, ◌*◌, ◌/◌, ◌^◌, Bool, false, Option, none, some, arith, ltb, leb, ◌==◌, if◌then◌else◌,
}
use expert_octo_enigma.Prelude.Int.{ℤ, pos, negsuc}
use expert_octo_enigma.Float.{Float, IsOrdered}

abbrev pub Whole : Type 0
Whole = Option ℕ

abbrev on_numbers : (ℕ → ℕ → Option ℕ) → Whole → Whole → Whole
on_numbers op (some a) (some b) = op a b
on_numbers op _ _ = none

abbrev compared : (ℕ → ℕ → Bool) → Whole → Whole → Bool
compared test (some a) (some b) = test a b
compared test _ _ = false

abbrev of_ℤ : ℤ → Whole
of_ℤ (pos n) = some n
of_ℤ (negsuc n) = none

instance abbrev pub whole : Float Whole
whole = record {
  lit = λ n d. some (n / 10 ^ d);
  of_int = of_ℤ;
  add = on_numbers (λ a b. some (a + b));
  sub = on_numbers (λ a b. if leb b a then some (a - b) else none);
  mul = on_numbers (λ a b. some (a * b));
  div = on_numbers (λ a b. if b == 0 then none else some (a / b));
  neg = on_numbers (λ a b. none) (some 0);
  le = compared leb;
  lt = compared ltb;
  eq = compared ◌==◌;
}

pub Whole-IsOrdered : IsOrdered Whole
Whole-IsOrdered = ground arith
