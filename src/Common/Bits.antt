-- ===== src/Common/Bits.antt =====
-- Masks of ones, where `a & (2 ^ k - 1)` keeps the lowest k binary digits, the width of words, and
-- remainders of neighbouring numbers.
use Prim.Native.Nat.{
  ℕ, zero, suc, ◌+◌, ◌-◌, ◌*◌, ◌/◌, ◌%◌, ◌^◌, ◌≤◌, ◌<◌, min, bit_and, bit_xor, differ, digits,
  bit_and-bitwise, bit_xor-bitwise,
}
use mathlib.Core.Path.{◌≡◌, refl, sym, ap, ◌∙◌}
use native.Mathlib.Omega.{arith}
use native.Mathlib.Decide.{dec_lt}
use mathlib.Core.Logic.{◌≢◌}
use native.Mathlib.Nat.{
  mul-le-mul_left, mul-suc, div-add-mod, mod-lt, mod-eq_of_lt, add-mul-mod_self_left, one-le-pow,
  two-pow-succ,
}

-- `digits` for the two numbers of `bit_and`, on a count of digits that may be larger than needed.
abbrev low_digits : ℕ → ℕ → ℕ → ℕ
low_digits count a b = digits (λ b. zero) min count a b

low_digits_zero : (count b : ℕ) → low_digits count 0 b ≡ 0
low_digits_zero zero b = refl
low_digits_zero (suc count) b = refl

-- One digit more than `a` can have adds nothing, so neither do many.
low_digits_once : (count a b : ℕ) → a ≤ count → low_digits (suc count) a b ≡ low_digits count a b
low_digits_once count zero b h = sym (low_digits_zero count b)
low_digits_once zero (suc a) b h = absurd (omega arith)
low_digits_once (suc count) (suc a) b h =
    omega (arith, low_digits_once count (suc a / 2) (b / 2) (omega arith))

low_digits_enough : (count a b : ℕ) → a ≤ count → low_digits count a b ≡ low_digits a a b
low_digits_enough zero a b h =
    let same : 0 ≡ a = omega arith in ap (λ (n : ℕ). low_digits n a b) same
low_digits_enough (suc count) a b h = elim (dec_lt count a) [
  | yes above ↦ let same : suc count ≡ a = omega arith in ap (λ (n : ℕ). low_digits n a b) same
  | no below ↦ low_digits_once count a b (omega arith) ∙ low_digits_enough count a b (omega arith)
]

bit_and_zero_left : (b : ℕ) → bit_and 0 b ≡ 0
bit_and_zero_left b = bit_and-bitwise 0 b

bit_and_halves : (a b : ℕ) → min (a % 2) (b % 2) + 2 * bit_and (a / 2) (b / 2) ≡ bit_and a b
bit_and_halves zero b = omega (arith, bit_and_zero_left b, bit_and_zero_left (b / 2))
bit_and_halves (suc a) b =
    let half = suc a / 2 in
    let enough : low_digits a half (b / 2) ≡ low_digits half half (b / 2) =
      low_digits_enough a half (b / 2) (omega arith) in
    omega (arith, bit_and-bitwise (suc a) b, bit_and-bitwise half (b / 2), enough)

bit_and_no_ones : (count a : ℕ) → a ≤ count → bit_and a 0 ≡ 0
bit_and_no_ones count zero h = bit_and_zero_left 0
bit_and_no_ones zero (suc a) h = absurd (omega arith)
bit_and_no_ones (suc count) (suc a) h =
    omega (arith, bit_and_halves (suc a) 0, bit_and_no_ones count (suc a / 2) (omega arith))

mod_double : (a m : ℕ) → 0 < m → a % (m + m) ≡ a / 2 % m * 2 + a % 2
mod_double a m h =
    let q = a / 2 / m in
    let r = a / 2 % m in
    let split : a ≡ r * 2 + a % 2 + (m + m) * q = grind (arith, div-add-mod (a / 2) m) in
    ap (λ (n : ℕ). n % (m + m)) split
    ∙ (add-mul-mod_self_left (r * 2 + a % 2) (m + m) q
        ∙ mod-eq_of_lt (omega (arith, mod-lt (a / 2) h)))

-- A mask of `k` ones is a remainder.
pub bit_and_mask : (k a : ℕ) → bit_and a (2 ^ k - 1) ≡ a % 2 ^ k
bit_and_mask zero a = omega (arith, bit_and_no_ones a a (omega arith))
bit_and_mask (suc k) a =
    let positive : 0 < 2 ^ k = one-le-pow k 2 (omega arith) in
    let ones : (2 ^ suc k - 1) / 2 ≡ 2 ^ k - 1 = omega (arith, two-pow-succ k) in
    let doubled : a % 2 ^ suc k ≡ a % (2 ^ k + 2 ^ k) = ap (λ (n : ℕ). a % n) (two-pow-succ k) in
    rw (sym (bit_and_halves a (2 ^ suc k - 1)), ones, bit_and_mask k (a / 2))
      (omega (arith, doubled, positive, two-pow-succ k, mod_double a (2 ^ k) positive))

differ_below : (x y : ℕ) → x ≤ 1 → y ≤ 1 → differ x y ≤ 1
differ_below zero y h l = l
differ_below (suc x) zero h l = h
differ_below (suc x) (suc y) h l = differ_below x y (omega arith) (omega arith)

differ-digits_below :
    (k count a b : ℕ) → a < 2 ^ k → b < 2 ^ k → digits (λ b. b) differ count a b < 2 ^ k
differ-digits_below k zero a b h l = l
differ-digits_below k (suc count) zero b h l = l
differ-digits_below zero (suc count) (suc a) b h l = absurd (omega (arith, h))
differ-digits_below (suc k) (suc count) (suc a) b h l =
    let half : digits (λ b. b) differ count (suc a / 2) (b / 2) < 2 ^ k =
      differ-digits_below k count (suc a / 2) (b / 2) (omega (arith, two-pow-succ k))
        (omega (arith, two-pow-succ k)) in
    omega
      (arith, half, two-pow-succ k, differ_below (suc a % 2) (b % 2) (omega arith) (omega arith))

-- The exclusive or of two words is a word.
pub bit_xor_below : (k a b : ℕ) → a < 2 ^ k → b < 2 ^ k → bit_xor a b < 2 ^ k
bit_xor_below k a b h l = omega (arith, bit_xor-bitwise a b, differ-digits_below k a a b h l)

-- Two of the next `n` positions have different remainders.
pub positions_differ : (n a i j : ℕ) → i < j → j < i + n → (a + i) % n ≢ (a + j) % n
positions_differ n a i j h l e =
    let q = (a + i) / n in
    let p = (a + j) / n in
    elim (dec_lt q p) [
      | yes above ↦
          let next : n * suc q ≤ n * p = mul-le-mul_left n above in
          omega (arith, next, mul-suc n q, div-add-mod (a + i) n, div-add-mod (a + j) n)
      | no below ↦
          let back : n * p ≤ n * q = mul-le-mul_left n (omega arith) in
          omega (arith, back, div-add-mod (a + i) n, div-add-mod (a + j) n)
    ]
