-- ===== src/Core/Float.antt =====
-- The machine's `double` and `long double`, which the code takes from the compiler: the operations
-- that the code calls, as an interface, and the documented behaviour of the extended
-- format that one of its functions relies on.
pub mod Whole
use axiotick.Common.{◌≡◌, Bool, ℤ, ◌*ℤ◌, ltb_ℤ, InInt64}

-- `D` is `double` and `Long` is `long double`; `gt`, `le` and `lt` are false on a NaN.
pub record Float (D : Type 0) : Type 1 where
  pub Long : Type 0
  pub nought : D
  pub is_finite : D → Bool
  pub fabs : D → D
  pub eq : D → D → Bool
  pub gt : D → D → Bool
  pub le : D → D → Bool
  pub add : D → D → D
  pub sub : D → D → D
  pub mul : D → D → D
  pub neg : D → D
  pub of_int : ℤ → D
  pub div : D → D → D
  pub widen : D → Long
  pub long_of_int : ℤ → Long
  pub long_add : Long → Long → Long
  pub long_mul : Long → Long → Long
  pub long_div : Long → Long → Long
  pub long_gt : Long → Long → Bool
  pub long_lt : Long → Long → Bool
  pub llround : Long → ℤ
  pub trunc : Long → ℤ

-- A 64-bit mantissa (x87) holds every `int64_t`; a product of two of them compares with a third as
-- the exact product does, and is exact where it fits.
pub record IsExtended {D : Type 0} (f : Float D) : Type 0 where
  pub mul_gt :
      (a b c : ℤ)
      → InInt64 a
      → InInt64 b
      → InInt64 c
      → f.long_gt (f.long_mul (f.long_of_int a) (f.long_of_int b)) (f.long_of_int c)
        ≡ ltb_ℤ c (a *ℤ b)
  pub mul_lt :
      (a b c : ℤ)
      → InInt64 a
      → InInt64 b
      → InInt64 c
      → f.long_lt (f.long_mul (f.long_of_int a) (f.long_of_int b)) (f.long_of_int c)
        ≡ ltb_ℤ (a *ℤ b) c
  pub mul_trunc :
      (a b : ℤ)
      → InInt64 a
      → InInt64 b
      → InInt64 (a *ℤ b)
      → f.trunc (f.long_mul (f.long_of_int a) (f.long_of_int b)) ≡ a *ℤ b
