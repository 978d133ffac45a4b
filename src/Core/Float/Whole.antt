-- ===== src/Core/Float/Whole.antt =====
-- An instance of the floating-point interface that the tests run on: whole numbers, with exact
-- products and a quotient that drops the rest. It meets the laws of the extended format.
use axiotick.Common.{
  suc, ◌/◌, refl, true, ℤ, pos, negsuc, neg_ℤ, ◌*ℤ◌, ltb_ℤ, leb_ℤ, ◌+ℤ◌, ◌-ℤ◌, ◌==ℤ◌, abs_ℤ,
  pos_part,
}
use axiotick.Core.Float.{Float, IsExtended}

-- The quotient of integers, for a positive divisor.
abbrev quotient : ℤ → ℤ → ℤ
quotient (pos a) b = pos (a / pos_part b)
quotient (negsuc a) b = neg_ℤ (pos ((suc a) / pos_part b))

instance abbrev pub whole_float : Float ℤ
whole_float = record {
  Long = ℤ;
  nought = pos 0;
  is_finite = λ _. true;
  fabs = abs_ℤ;
  eq = λ a b. a ==ℤ b;
  gt = λ a b. ltb_ℤ b a;
  le = λ a b. leb_ℤ a b;
  add = λ a b. a +ℤ b;
  sub = λ a b. a -ℤ b;
  mul = λ a b. a *ℤ b;
  neg = neg_ℤ;
  of_int = λ n. n;
  div = quotient;
  widen = λ a. a;
  long_of_int = λ n. n;
  long_add = λ a b. a +ℤ b;
  long_mul = λ a b. a *ℤ b;
  long_div = quotient;
  long_gt = λ a b. ltb_ℤ b a;
  long_lt = λ a b. ltb_ℤ a b;
  llround = λ a. a;
  trunc = λ a. a;
}

pub whole_float-IsExtended : IsExtended whole_float
whole_float-IsExtended = record {
  mul_gt = λ a b c h k l. refl;
  mul_lt = λ a b c h k l. refl;
  mul_trunc = λ a b h k l. refl;
}
