-- ===== src/Core/Validator.antt =====
-- backend/include/core/order_validator.hpp.
pub mod Accepts
use axiotick.Common.{
  Bool, true, false, not, ◌&&◌, ◌||◌, if◌then◌else◌, ◌==◌, pos, leb_ℤ, ◌==ℤ◌, int64_max,
}
use axiotick.Core.Order.{
  Order, side_buy, side_sell, order_type_market, order_type_limit, order_type_stop, tif_gtc,
  tif_ioc, tif_fok,
}

-- `OrderValidationError`; its `None` is `valid`.
pub data OrderValidationError : Type 0 where
  valid zero_id zero_quantity invalid_side invalid_type : OrderValidationError
  invalid_time_in_force invalid_price overflow_scalar : OrderValidationError

unfoldable pub validate_order : {D : Type 0} → Order D → OrderValidationError
validate_order o =
    if o.order_id == 0
    then zero_id
    else if leb_ℤ o.quantity_lots (pos 0)
    then zero_quantity
    else if not (o.side == side_buy) && not (o.side == side_sell)
    then invalid_side
    else if not (o.type == order_type_market)
        && not (o.type == order_type_limit)
        && not (o.type == order_type_stop)
    then invalid_type
    else if not (o.tif == tif_gtc) && not (o.tif == tif_ioc) && not (o.tif == tif_fok)
    then invalid_time_in_force
    else if leb_ℤ o.price_ticks (pos 0)
    then invalid_price
    else if (o.price_ticks ==ℤ int64_max) || (o.quantity_lots ==ℤ int64_max)
    then overflow_scalar
    else valid

unfoldable pub is_valid_order : {D : Type 0} → Order D → Bool
unfolding validate_order
is_valid_order o = elim (validate_order o) [ valid ↦ true | _ ↦ false ]
