-- ===== src/Float/Signed.antt =====
-- A concrete `Float` for tests in which losses matter: integers, with truncated quotients and 0 for a
-- quotient by 0.
use expert_octo_enigma.Prelude.{suc, ◌/◌, ◌^◌, not, ◌&&◌, ◌==◌, if◌then◌else◌}
use expert_octo_enigma.Prelude.Int.{ℤ, pos, negsuc, ◌+ℤ◌, ◌-ℤ◌, ltb_ℤ, negate, ◌*ℤ◌}
use expert_octo_enigma.Float.{Float}

abbrev quotient : ℤ → ℤ → ℤ
quotient (pos a) (pos b) = if b == 0 then pos 0 else pos (a / b)
quotient (pos a) (negsuc b) = negate (pos (a / suc b))
quotient (negsuc a) (pos b) = if b == 0 then pos 0 else negate (pos (suc a / b))
quotient (negsuc a) (negsuc b) = pos (suc a / suc b)

instance abbrev pub signed : Float ℤ
signed = record {
  lit = λ n d. pos (n / 10 ^ d);
  of_int = λ n. n;
  add = ◌+ℤ◌;
  sub = ◌-ℤ◌;
  mul = ◌*ℤ◌;
  div = quotient;
  neg = negate;
  le = λ a b. not (ltb_ℤ b a);
  lt = ltb_ℤ;
  eq = λ a b. not (ltb_ℤ a b) && not (ltb_ℤ b a);
}
