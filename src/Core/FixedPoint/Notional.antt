-- ===== src/Core/FixedPoint/Notional.antt =====
-- `to_notional_units` against exact multiplication.
use axiotick.Common.{◌≡◌, ℤ, ◌*ℤ◌, ◌≤ℤ◌, ltb_ℤ, abs_ℤ, int64_max, int64_min, if◌then◌else◌, arith}
use axiotick.Core.Float.{Float, IsExtended}
use axiotick.Core.FixedPoint.{to_notional_units, max_price_ticks, max_quantity_lots}

-- The nearest `int64_t` to an integer.
abbrev pub clamp_int64 : ℤ → ℤ
clamp_int64 a = if ltb_ℤ int64_max a then int64_max else if ltb_ℤ a int64_min then int64_min else a

module _ {D : Type 0} (f : Float D) (x : IsExtended f) (ticks lots : ℤ) where
  -- For scalars in their bounds the notional is the exact product, clamped to `int64_t`.
  pub to_notional_units_exact :
      abs_ℤ ticks ≤ℤ max_price_ticks
      → abs_ℤ lots ≤ℤ max_quantity_lots
      → to_notional_units f ticks lots ≡ clamp_int64 (ticks *ℤ lots)
  unfolding to_notional_units
  to_notional_units_exact ht hl =
      ground (
        arith,
        x.mul_gt ticks lots int64_max,
        x.mul_lt ticks lots int64_min,
        x.mul_trunc ticks lots,
      )
