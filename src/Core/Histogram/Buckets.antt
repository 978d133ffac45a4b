-- ===== src/Core/Histogram/Buckets.antt =====
-- The buckets of backend/include/core/latency_histogram.hpp.
use axiotick.Common.{
  ℕ, zero, suc, ◌+◌, ◌-◌, ◌*◌, ◌/◌, ◌%◌, ◌^◌, ◌≤◌, ◌<◌, ◌≡◌, refl, ap, ◌∙◌, inl, inr, Bool-cases,
  true, false, bit_and, bit_and_mask, ltb, ◌==◌, arith,
}
use native.Mathlib.Decide.{dec_lt}
use native.Mathlib.Nat.{
  pow-le-pow_right, add-mul, div-add-mod', two-pow-succ, one-le-pow, mod-lt, le-div_iff_mul-le,
  div-lt_iff_lt-mul,
}
use axiotick.Core.Histogram.{
  highest_bit, log_index, bucket_index, bucket_upper_edge, bucket_count, max_tracked_value,
}

highest_bit-bounds :
    (fuel value : ℕ)
    → 0 < value
    → value < 2 ^ suc fuel
    → (2 ^ highest_bit fuel value ≤ value)
      × (value < 2 ^ suc (highest_bit fuel value))
      × (highest_bit fuel value ≤ fuel)
unfolding highest_bit
highest_bit-bounds zero value h l = (omega arith, omega arith, omega arith)
highest_bit-bounds (suc fuel) value h l = elim (Bool-cases (value / 2 == 0)) [
  | inl single ↦ rw single (omega arith, ground (arith, single), omega arith)
  | inr more ↦
      let (low, high, small) =
        highest_bit-bounds fuel (value / 2) (ground (arith, more))
          (omega (arith, two-pow-succ (suc fuel))) in
      let bit = highest_bit fuel (value / 2) in
      rw more (
        omega (arith, low, two-pow-succ bit),
        omega (arith, high, two-pow-succ (suc bit)),
        omega (arith, small),
      )
]

thirty_two : (g : ℕ) → 2 ^ suc (suc (suc (suc (suc g)))) ≡ 32 * 2 ^ g
thirty_two g = omega (
  arith,
  two-pow-succ g,
  two-pow-succ (suc g),
  two-pow-succ (suc (suc g)),
  two-pow-succ (suc (suc (suc g))),
  two-pow-succ (suc (suc (suc (suc g)))),
)

-- A value of at least 32 whose highest digit is at 5 + g: it has `t` of the steps of 2 ^ g.
record IsScaled (v g : ℕ) : Type 0 where
  bit : highest_bit 63 v ≡ suc (suc (suc (suc (suc g))))
  small : g ≤ 36
  from : 32 ≤ v / 2 ^ g
  below : v / 2 ^ g < 64

scaled : (v : ℕ) → 32 ≤ v → v ≤ max_tracked_value → (g : ℕ) × IsScaled v g
scaled v h l =
    let (low, high, _) = highest_bit-bounds 63 v (omega arith) (omega arith) in
    let m = highest_bit 63 v in
    let g = m - 5 in
    let least : 5 ≤ m = elim (dec_lt m 5) [
      | no fits ↦ omega arith
      | yes short ↦
          let less : 2 ^ suc m ≤ 2 ^ 5 = pow-le-pow_right (omega arith) short in
          absurd (omega (arith, high, less))
    ] in
    let most : m ≤ 41 = elim (dec_lt 41 m) [
      | no fits ↦ omega arith
      | yes long ↦
          let more : 2 ^ 42 ≤ 2 ^ m = pow-le-pow_right (omega arith) long in
          absurd (omega (arith, low, more))
    ] in
    let split : m ≡ suc (suc (suc (suc (suc g)))) = omega arith in
    let step : 2 ^ m ≡ 32 * 2 ^ g = ap (λ (n : ℕ). 2 ^ n) split ∙ thirty_two g in
    let positive : 0 < 2 ^ g = one-le-pow g 2 (omega arith) in
    (
      g,
      record {
        bit = split;
        small = omega arith;
        from = (le-div_iff_mul-le positive).1 (omega (arith, low, step));
        below = (div-lt_iff_lt-mul positive).1 (omega (arith, high, step, two-pow-succ m));
      },
    )

edge_of :
    (g u : ℕ) → u < 32 → bucket_upper_edge ((g + 1) * 32 + u) ≡ 32 * 2 ^ g + u * 2 ^ g + (2 ^ g - 1)
unfolding bucket_upper_edge
edge_of g u h =
    let index = (g + 1) * 32 + u in
    let large : ltb index 32 ≡ false = ground arith in
    let exponent : index / 32 + 5 - 1 ≡ suc (suc (suc (suc (suc g)))) = omega arith in
    let base : 2 ^ (index / 32 + 5 - 1) ≡ 32 * 2 ^ g =
      ap (λ (n : ℕ). 2 ^ n) exponent ∙ thirty_two g in
    let sub : index % 32 ≡ u = omega arith in
    let width : 32 * 2 ^ g / 32 ≡ 2 ^ g = omega arith in rw (large, base, sub, width) refl

index_of : (v g : ℕ) → IsScaled v g → log_index v ≡ (g + 1) * 32 + (v / 2 ^ g - 32)
index_of v g s =
    let shift : highest_bit 63 v - 5 ≡ g = omega (arith, s.bit) in
    let masked : bit_and (v / 2 ^ g) 31 ≡ v / 2 ^ g % 32 = bit_and_mask 5 (v / 2 ^ g) in
    rw (shift, masked) (omega (arith, s.from, s.below))

edge_scaled :
    (v g : ℕ)
    → IsScaled v g
    → let edge = bucket_upper_edge (log_index v) in
      (v ≤ edge) × (32 * (edge - v) ≤ v) × (log_index v < bucket_count)
edge_scaled v g s =
    let t = v / 2 ^ g in
    let u = t - 32 in
    let edge : bucket_upper_edge (log_index v) ≡ 32 * 2 ^ g + u * 2 ^ g + (2 ^ g - 1) =
      ap bucket_upper_edge (index_of v g s) ∙ edge_of g u (omega (arith, s.below)) in
    let split : t ≡ 32 + u = omega (arith, s.from) in
    let steps : t * 2 ^ g ≡ 32 * 2 ^ g + u * 2 ^ g =
      ap (λ (n : ℕ). n * 2 ^ g) split ∙ add-mul 32 u (2 ^ g) in
    let positive : 0 < 2 ^ g = one-le-pow g 2 (omega arith) in
    let parts = div-add-mod' v (2 ^ g) in
    let rest = mod-lt v positive in
    (
      omega (arith, edge, steps, parts, rest),
      omega (arith, edge, steps, parts, rest),
      omega (arith, index_of v g s, s.small, s.below),
    )

edge_exact : (v : ℕ) → ltb v 32 ≡ true → bucket_upper_edge v ≡ v
unfolding bucket_upper_edge
edge_exact v h = rw h refl

-- The upper edge of the bucket of a value that is not clamped is at least the value, and exceeds it
-- by at most a thirty-second part of it; the bucket is one of those that there are.
pub bucket_upper_edge-bucket_index :
    (v : ℕ)
    → v ≤ max_tracked_value
    → let edge = bucket_upper_edge (bucket_index v) in
      (v ≤ edge) × (32 * (edge - v) ≤ v) × (bucket_index v < bucket_count)
unfolding bucket_index
bucket_upper_edge-bucket_index v h =
    let tracked : ltb max_tracked_value v ≡ false = ground arith in
    elim (Bool-cases (ltb v 32)) [
      | inl exact ↦
          rw (tracked, exact)
            (
              omega (arith, edge_exact v exact),
              omega (arith, edge_exact v exact),
              ground (arith, exact),
            )
      | inr large ↦
          let (g, s) = scaled v (ground (arith, large)) h in rw (tracked, large) (edge_scaled v g s)
    ]
