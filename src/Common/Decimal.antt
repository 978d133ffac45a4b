-- ===== src/Common/Decimal.antt =====
-- Decimal digits as bytes: how `operator<<` of a stream prints an unsigned number, and how `strtoull`
-- and `strtoll` of the C library read a run of digits.
use Prim.Native.Char.{code}
use Prim.Native.String.{String}
use Prim.Native.Nat.{ℕ, zero, suc, ◌+◌, ◌-◌, ◌*◌, ◌/◌, ◌%◌, ◌≤◌}
use mathlib.Core.Path.{◌≡◌, refl}
use mathlib.Core.Bool.{Bool, ◌&&◌}
use mathlib.Core.List.{List, [], ◌∷◌, ◌++◌}
use mathlib.Core.Logic.{inl, inr}
use native.Mathlib.Omega.{arith}
use axiotick.Common.Tests.{ltb, leb, if◌then◌else◌, Bool-cases}

abbrev pub Bytes : Type 0
Bytes = List ℕ

-- The bytes of a text in ASCII.
abbrev pub codes : String → Bytes
codes String.[] = []
codes (String.◌∷◌ c s) = code c ∷ codes s

-- The digits of `n` before `out`; a number has no more digits than its value says.
unfoldable pub digits_before : ℕ → ℕ → Bytes → Bytes
digits_before zero n out = (48 + n) ∷ out
digits_before (suc fuel) n out =
    let rest = digits_before fuel (n / 10) ((48 + n % 10) ∷ out) in
    if ltb n 10 then (48 + n) ∷ out else rest

unfoldable pub decimal : ℕ → Bytes
unfolding digits_before
decimal n = digits_before n n []

abbrev pub is_digit : ℕ → Bool
is_digit c = leb 48 c && leb c 57

unfoldable pub leading_digits : Bytes → Bytes
leading_digits [] = []
leading_digits (c ∷ s) = let rest = leading_digits s in if is_digit c then c ∷ rest else []

-- The number that digits spell behind `n`.
unfoldable pub value_of : ℕ → Bytes → ℕ
value_of n [] = n
value_of n (c ∷ s) = value_of (n * 10 + (c - 48)) s

-- A number above the range is the greatest of the range.
abbrev pub saturate : ℕ → ℕ → ℕ
saturate greatest n = if ltb greatest n then greatest else n

digits_before-append :
    (fuel n : ℕ) (out rest : Bytes)
    → digits_before fuel n out ++ rest ≡ digits_before fuel n (out ++ rest)
unfolding digits_before
digits_before-append zero n out rest = refl
digits_before-append (suc fuel) n out rest =
    ground (arith, digits_before-append fuel (n / 10) ((48 + n % 10) ∷ out) rest)

pub decimal-append : (n : ℕ) (rest : Bytes) → decimal n ++ rest ≡ digits_before n n rest
unfolding decimal
decimal-append n rest = digits_before-append n n [] rest

leading_digits-digits_before :
    (fuel n : ℕ) (out : Bytes)
    → n ≤ fuel
    → leading_digits (digits_before fuel n out) ≡ digits_before fuel n (leading_digits out)
unfolding digits_before leading_digits
leading_digits-digits_before zero n out h = ground (arith, h)
leading_digits-digits_before (suc fuel) n out h =
    ground (arith, h, leading_digits-digits_before fuel (n / 10) ((48 + n % 10) ∷ out))

value_of-digits_before :
    (fuel n : ℕ) (out : Bytes) → n ≤ fuel → value_of 0 (digits_before fuel n out) ≡ value_of n out
unfolding digits_before value_of
value_of-digits_before zero n out h = ground (arith, h)
value_of-digits_before (suc fuel) n out h =
    ground (arith, h, value_of-digits_before fuel (n / 10) ((48 + n % 10) ∷ out))

-- The first digit, which says that there is one.
digits_before_first :
    (fuel n : ℕ) (out : Bytes)
    → n ≤ fuel
    → (d : ℕ) × (s : Bytes) × (d ≤ 9) × (digits_before fuel n out ≡ (48 + d) ∷ s)
unfolding digits_before
digits_before_first zero n out h = (n, out, omega (arith, h), refl)
digits_before_first (suc fuel) n out h = elim (Bool-cases (ltb n 10)) [
  | inl small ↦ (n, out, ground (arith, small), rw small refl)
  | inr large ↦
      let (d, s, below, e) =
        digits_before_first fuel (n / 10) ((48 + n % 10) ∷ out) (ground (arith, large, h)) in
      (d, s, below, rw large e)
]

pub decimal_first :
    (n : ℕ) (rest : Bytes) → (d : ℕ) × (s : Bytes) × (d ≤ 9) × (decimal n ++ rest ≡ (48 + d) ∷ s)
decimal_first n rest = rw decimal-append (digits_before_first n n rest (omega arith))

-- What follows a printed number, and starts with no digit, does not change how it is read.
pub leading_digits-decimal :
    (n : ℕ) (rest : Bytes)
    → leading_digits rest ≡ []
    → leading_digits (decimal n ++ rest) ≡ decimal n
unfolding decimal
leading_digits-decimal n rest h =
    rw (decimal-append, leading_digits-digits_before n n rest (omega arith), h) refl

pub value_of-decimal : (n : ℕ) → value_of 0 (decimal n) ≡ n
unfolding decimal value_of
value_of-decimal n = value_of-digits_before n n [] (omega arith)
