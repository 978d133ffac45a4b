-- ===== src/Core/Examples.antt =====
-- The theorems on orders and scaled integers, applied to whole-number floats.
use axiotick.Common.{◌≡◌, refl, [], ℤ, pos, ◌<ℤ◌, ◌≤ℤ◌, ◌*ℤ◌, int_laws}
use axiotick.Core.Float.Whole.{whole_float, whole_float-IsExtended}
use axiotick.Core.Order.{Order, side_sell, order_type_limit}
use axiotick.Core.FixedPoint.{
  normalize_order_scalars, to_price_ticks, to_quantity_lots, round_to_i64, to_notional_units,
  max_price_ticks, max_quantity_lots,
}
use axiotick.Core.FixedPoint.Bounds.{normalize_bounds}
use axiotick.Core.FixedPoint.Notional.{to_notional_units_exact, clamp_int64}
use axiotick.Core.Validator.{validate_order, valid}

-- An order that gives its price and quantity as floats and leaves the time in force open.
abbrev by_floats : Order ℤ
by_floats = record {
  order_id = 7;
  client_id = 1;
  timestamp_ns = 0;
  price = pos 12;
  quantity = pos 3;
  price_ticks = pos 0;
  quantity_lots = pos 0;
  symbol = [];
  side = side_sell;
  type = order_type_limit;
  tif = 0;
}

by_floats-valid : validate_order (normalize_order_scalars by_floats) ≡ valid
unfolding validate_order normalize_order_scalars to_price_ticks round_to_i64 ◌*ℤ◌ to_quantity_lots
by_floats-valid = refl

normalize_bounds_example :
    (pos 0 <ℤ (normalize_order_scalars by_floats).price_ticks)
    × ((normalize_order_scalars by_floats).price_ticks ≤ℤ max_price_ticks)
    × (pos 0 <ℤ (normalize_order_scalars by_floats).quantity_lots)
    × ((normalize_order_scalars by_floats).quantity_lots ≤ℤ max_quantity_lots)
normalize_bounds_example = normalize_bounds by_floats by_floats-valid

to_notional_units_exact_example :
    to_notional_units whole_float (pos 12) (pos 999) ≡ clamp_int64 (pos 12 *ℤ pos 999)
to_notional_units_exact_example =
    to_notional_units_exact whole_float whole_float-IsExtended (pos 12) (pos 999) (omega int_laws)
      (omega int_laws)
