-- ===== src/Core/FixedPoint.antt =====
-- backend/include/core/fixed_point.hpp: scaled integers for prices, quantities and notionals.
-- `std::llabs` of the least `int64_t` is undefined in the source and is its exact value here.
pub mod Bounds
pub mod Notional
use axiotick.Common.{
  ℕ, ◌≡◌, Bool, not, ◌&&◌, ◌||◌, if◌then◌else◌, ◌==◌, ℤ, pos, ltb_ℤ, ◌==ℤ◌, abs_ℤ, neg_ℤ, int64_max,
  int64_min,
}
use axiotick.Core.Float.{Float}
use axiotick.Core.Order.{Order, side_buy, tif_gtc}

abbrev pub price_scale : ℤ
price_scale = pos 1_000_000

abbrev pub quantity_scale : ℤ
quantity_scale = pos 1_000_000

abbrev pub max_safe_price : ℤ
max_safe_price = pos 999_999

abbrev pub max_safe_quantity : ℤ
max_safe_quantity = pos 1000

abbrev pub max_price_ticks : ℤ
max_price_ticks = pos 999_999_000_000

abbrev pub max_quantity_lots : ℤ
max_quantity_lots = pos 1_000_000_000

-- The bounds that both `to_notional_units` and `normalize_order_scalars` test.
abbrev pub exceeds_scalars : ℤ → ℤ → Bool
exceeds_scalars ticks lots =
    ltb_ℤ max_price_ticks (abs_ℤ ticks) || ltb_ℤ max_quantity_lots (abs_ℤ lots)

unfoldable pub to_notional_units : {D : Type 0} (f : Float D) → ℤ → ℤ → ℤ
to_notional_units f ticks lots =
    let product = f.long_mul (f.long_of_int ticks) (f.long_of_int lots) in
    if exceeds_scalars ticks lots
    then int64_max
    else if f.long_gt product (f.long_of_int int64_max)
    then int64_max
    else if f.long_lt product (f.long_of_int int64_min)
    then int64_min
    else f.trunc product

module _ {D : Type 0} ⦃f : Float D⦄ where
  open f use {
    nought, is_finite, fabs, eq, gt, of_int, div, widen, long_of_int, long_mul, long_gt, long_lt,
    llround, trunc,
  }

  unfoldable pub round_to_i64 : D → ℤ → ℤ
  round_to_i64 value scale =
      let scaled = long_mul (widen value) (long_of_int scale) in
      if not (is_finite value)
      then pos 0
      else if long_gt scaled (long_of_int int64_max)
      then int64_max
      else if long_lt scaled (long_of_int int64_min)
      then int64_min
      else llround scaled

  unfoldable pub to_double : ℤ → ℤ → D
  to_double value scale = div (of_int value) (of_int scale)

  unfoldable pub to_price_ticks : D → ℤ
  to_price_ticks price =
      if not (is_finite price) || gt (fabs price) (of_int max_safe_price)
      then int64_max
      else round_to_i64 price price_scale

  unfoldable pub to_quantity_lots : D → ℤ
  to_quantity_lots quantity =
      if not (is_finite quantity) || gt (fabs quantity) (of_int max_safe_quantity)
      then int64_max
      else round_to_i64 quantity quantity_scale

  unfoldable pub from_price_ticks : ℤ → D
  from_price_ticks ticks = to_double ticks price_scale

  unfoldable pub from_quantity_lots : ℤ → D
  from_quantity_lots lots = to_double lots quantity_scale

  unfoldable pub normalize_order_scalars : Order D → Order D
  normalize_order_scalars o =
      let ticks : ℤ =
        if (o.price_ticks ==ℤ pos 0) && not (eq o.price nought)
        then to_price_ticks o.price
        else o.price_ticks in
      let lots : ℤ =
        if (o.quantity_lots ==ℤ pos 0) && not (eq o.quantity nought)
        then to_quantity_lots o.quantity
        else o.quantity_lots in
      record o {
        price =
            if eq o.price nought && not (ticks ==ℤ pos 0) then from_price_ticks ticks else o.price;
        quantity =
            if eq o.quantity nought && not (lots ==ℤ pos 0)
            then from_quantity_lots lots
            else o.quantity;
        price_ticks = if exceeds_scalars ticks lots then int64_max else ticks;
        quantity_lots = if exceeds_scalars ticks lots then int64_max else lots;
        tif = if o.tif == 0 then tif_gtc else o.tif;
      }

  unfoldable pub signed_notional_units : Order D → ℤ
  signed_notional_units o =
      let raw = to_notional_units f o.price_ticks o.quantity_lots in
      if o.side == side_buy then raw else neg_ℤ raw
