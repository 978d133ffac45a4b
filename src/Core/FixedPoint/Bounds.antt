-- ===== src/Core/FixedPoint/Bounds.antt =====
-- What `normalize_order_scalars` leaves for an order that the validator then lets through.
use axiotick.Common.{◌≡◌, ◌≢◌, true, pos, ◌<ℤ◌, ◌≤ℤ◌, arith}
use axiotick.Core.Float.{Float}
use axiotick.Core.Order.{Order}
use axiotick.Core.FixedPoint.{
  normalize_order_scalars, max_price_ticks, max_quantity_lots, from_price_ticks, from_quantity_lots,
}
use axiotick.Core.Validator.{validate_order, valid}

module _ {D : Type 0} ⦃f : Float D⦄ (o : Order D) where
  open f use {nought, eq}

  -- A normalised order that `validate_order` lets through has positive price ticks of at most
  -- `max_price_ticks` and positive lots of at most `max_quantity_lots`.
  pub normalize_bounds :
      validate_order (normalize_order_scalars o) ≡ valid
      → let n = normalize_order_scalars o in
        (pos 0 <ℤ n.price_ticks)
        × (n.price_ticks ≤ℤ max_price_ticks)
        × (pos 0 <ℤ n.quantity_lots)
        × (n.quantity_lots ≤ℤ max_quantity_lots)
  unfolding normalize_order_scalars validate_order
  normalize_bounds h = ground arith

  -- The scalars agree with the floating-point fields, which are zero only if their image is.
  pub record IsSettled : Type 0 where
    pub ticks_pos : pos 0 <ℤ o.price_ticks
    pub ticks_le : o.price_ticks ≤ℤ max_price_ticks
    pub lots_pos : pos 0 <ℤ o.quantity_lots
    pub lots_le : o.quantity_lots ≤ℤ max_quantity_lots
    pub has_tif : o.tif ≢ 0
    pub price_of_zero : eq o.price nought ≡ true → from_price_ticks o.price_ticks ≡ o.price
    pub quantity_of_zero :
        eq o.quantity nought ≡ true → from_quantity_lots o.quantity_lots ≡ o.quantity

  pub normalize_settled : IsSettled → normalize_order_scalars o ≡ o
  unfolding normalize_order_scalars
  normalize_settled s = ground arith

module _ {D : Type 0} ⦃f : Float D⦄ (o : Order D) where
  open f use {nought, eq}

  normalize-price_of_zero :
      validate_order (normalize_order_scalars o) ≡ valid
      → let n = normalize_order_scalars o in
        eq n.price nought ≡ true → from_price_ticks n.price_ticks ≡ n.price
  unfolding normalize_order_scalars validate_order
  normalize-price_of_zero h e = ground arith

  normalize-quantity_of_zero :
      validate_order (normalize_order_scalars o) ≡ valid
      → let n = normalize_order_scalars o in
        eq n.quantity nought ≡ true → from_quantity_lots n.quantity_lots ≡ n.quantity
  unfolding normalize_order_scalars validate_order
  normalize-quantity_of_zero h e = ground arith

  normalize-tif : (normalize_order_scalars o).tif ≢ 0
  unfolding normalize_order_scalars
  normalize-tif = ground arith

  -- A normalised order that `validate_order` lets through is normalised for good: a second
  -- normalisation leaves every field as it is.
  pub normalize_idempotent :
      validate_order (normalize_order_scalars o) ≡ valid
      → normalize_order_scalars (normalize_order_scalars o) ≡ normalize_order_scalars o
  normalize_idempotent h =
      let (ticks_pos, ticks_le, lots_pos, lots_le) = normalize_bounds o h in
      normalize_settled (normalize_order_scalars o) (record {
        ticks_pos = ticks_pos;
        ticks_le = ticks_le;
        lots_pos = lots_pos;
        lots_le = lots_le;
        has_tif = normalize-tif;
        price_of_zero = normalize-price_of_zero h;
        quantity_of_zero = normalize-quantity_of_zero h;
      })
