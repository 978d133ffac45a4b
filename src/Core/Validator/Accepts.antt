-- ===== src/Core/Validator/Accepts.antt =====
-- What core/order_validator.hpp accepts, as a specification that names no order of the checks.
use axiotick.Common.{◌≡◌, ◌≢◌, ◌↔◌, ◌⊎◌, true, pos, ◌<ℤ◌, int64_max, arith}
use axiotick.Core.Order.{
  Order, side_buy, side_sell, order_type_market, order_type_limit, order_type_stop, tif_gtc,
  tif_ioc, tif_fok,
}
use axiotick.Core.Validator.{validate_order, is_valid_order, valid}

pub record IsAcceptable {D : Type 0} (o : Order D) : Type 0 where
  pub has_id : o.order_id ≢ 0
  pub lots_pos : pos 0 <ℤ o.quantity_lots
  pub lots_fit : o.quantity_lots ≢ int64_max
  pub price_pos : pos 0 <ℤ o.price_ticks
  pub price_fits : o.price_ticks ≢ int64_max
  pub known_side : (o.side ≡ side_buy) ⊎ (o.side ≡ side_sell)
  pub known_type :
      (o.type ≡ order_type_market) ⊎ ((o.type ≡ order_type_limit) ⊎ (o.type ≡ order_type_stop))
  pub known_tif : (o.tif ≡ tif_gtc) ⊎ ((o.tif ≡ tif_ioc) ⊎ (o.tif ≡ tif_fok))

module _ {D : Type 0} (o : Order D) where
  pub IsAcceptable-of_valid : validate_order o ≡ valid → IsAcceptable o
  unfolding validate_order
  IsAcceptable-of_valid h = ground arith

  pub valid_of_IsAcceptable : IsAcceptable o → validate_order o ≡ valid
  unfolding validate_order
  valid_of_IsAcceptable h = ground arith

  -- `is_valid_order` answers true for exactly the orders with a nonzero id, positive lots and price
  -- ticks below the saturation value, and a known side, type and time in force.
  pub is_valid_order_iff : (is_valid_order o ≡ true) ↔ IsAcceptable o
  unfolding is_valid_order
  is_valid_order_iff =
      (λ h. IsAcceptable-of_valid (ground arith), λ h. ground (arith, valid_of_IsAcceptable h))
