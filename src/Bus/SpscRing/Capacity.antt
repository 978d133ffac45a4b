-- ===== src/Bus/SpscRing/Capacity.antt =====
-- `normalize_capacity` of backend/include/bus/spsc_ring_buffer.hpp.
use axiotick.Common.{
  ℕ, zero, suc, ◌+◌, ◌^◌, ◌≤◌, ◌<◌, ◌≡◌, ◌⊎◌, inl, inr, refl, sym, ap, Bool-cases, false, ◌&&◌, ltb,
  arith,
}
use native.Mathlib.Decide.{dec_lt}
use native.Mathlib.Nat.{pow-suc, two-pow-succ, pow-le-pow_right}
use axiotick.Bus.SpscRing.{double_until, normalize_capacity}

-- A power of two that is at most the capacity, and is at least the size asked for or the capacity.
pub record IsCapacity (capacity requested n : ℕ) : Type 0 where
  pub exponent : ℕ
  pub power : n ≡ 2 ^ exponent
  pub at_most : n ≤ capacity
  pub enough : (requested ≤ n) ⊎ (n ≡ capacity)

below_pow : (k : ℕ) → k < 2 ^ k
below_pow zero = omega arith
below_pow (suc k) = omega (arith, below_pow k, two-pow-succ k)

double_until-IsCapacity :
    (k fuel requested e : ℕ)
    → e ≤ k
    → k ≤ e + fuel
    → IsCapacity (2 ^ k) requested (double_until (2 ^ k) fuel requested (2 ^ e))
unfolding double_until
double_until-IsCapacity k zero requested e below fuel_left =
    let whole : e ≡ k = omega arith in
    record {
      exponent = e;
      power = refl;
      at_most = rw whole (omega arith);
      enough = inr (ap (λ (n : ℕ). 2 ^ n) whole);
    }
double_until-IsCapacity k (suc fuel) requested e below fuel_left =
    elim (Bool-cases (ltb (2 ^ e) requested && ltb (2 ^ e) (2 ^ k))) [
      | inl goes ↦
          let smaller : e < k = elim (dec_lt e k) [
            | yes h ↦ h
            | no h ↦
                let same : e ≡ k = omega arith in
                absurd (ground (arith, goes, ap (λ (n : ℕ). 2 ^ n) same))
          ] in
          rw (goes, sym (pow-suc 2 e))
            (double_until-IsCapacity k fuel requested (suc e) (omega arith) (omega arith))
      | inr stops ↦
          let larger : 2 ^ e ≤ 2 ^ k = pow-le-pow_right (omega arith) below in
          rw stops (record {
            exponent = e;
            power = refl;
            at_most = larger;
            enough = ground (arith, stops, larger);
          })
    ]

-- For a template capacity that is a power of two, the logical capacity is a power of two of at most
-- that, and it is at least what was asked for, or the template's capacity.
pub normalize_capacity-IsCapacity :
    (k requested : ℕ) → IsCapacity (2 ^ k) requested (normalize_capacity (2 ^ k) requested)
unfolding normalize_capacity
normalize_capacity-IsCapacity k requested =
    let n = double_until (2 ^ k) (2 ^ k) requested 1 in
    let found : IsCapacity (2 ^ k) requested n =
      double_until-IsCapacity k (2 ^ k) requested 0 (omega arith) (omega (arith, below_pow k)) in
    let kept : ltb (2 ^ k) n ≡ false = ground (arith, found.at_most) in rw kept found
