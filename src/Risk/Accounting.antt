-- ===== src/Risk/Accounting.antt =====
-- A cancel after a check of backend/modules/risk/src/risk_manager.cpp.
use axiotick.Common.{
  ℕ, ◌≡◌, refl, ap, true, none, some, update, update_self, pos_part, neg_part, ℤ, pos, ◌≤ℤ◌, ◌<ℤ◌,
  min_ℤ, ◌+ℤ◌, ◌-ℤ◌, InInt64, arith, int_laws,
}
use axiotick.Core.Float.{Float}
use axiotick.Core.Order.{Order}
use axiotick.Core.FixedPoint.{normalize_order_scalars, signed_notional_units}
use axiotick.Core.Validator.{is_valid_order}
use axiotick.Core.Validator.Accepts.{is_valid_order_iff}
use axiotick.Risk.{RiskManager, Reservation, wrap_int64, try_add_units}
use axiotick.Risk.Reservations.{
  check_order, release_cancel, on_cancel, reservation_of, release_units,
}
use axiotick.Risk.Checks.{IsAdmissible, reserved, check_order_admits, check_order-IsAdmissible}

wrap_int64_inside : (a b : ℤ) → InInt64 a → wrap_int64 ((a +ℤ b) -ℤ b) ≡ a
unfolding wrap_int64
wrap_int64_inside a b h = let e : (a +ℤ b) -ℤ b ≡ a = omega int_laws in ground (arith, e)

module _ {D : Type 0} ⦃f : Float D⦄ where
  -- The whole reservation is worth what was added for it.
  release_units_whole :
      (n : Order D)
      → is_valid_order n ≡ true
      → release_units f (reservation_of n) n.quantity_lots ≡ signed_notional_units n
  unfolding signed_notional_units
  release_units_whole n v = ground (arith, ((is_valid_order_iff n).0 v).known_side)

  -- A reservation that is no larger than the cancelled order goes.
  release_cancel_whole :
      (n : Order D) (m : RiskManager D) (r : Reservation)
      → m.reservations n.order_id ≡ some r
      → n.quantity_lots ≡ r.remaining_lots
      → pos 0 <ℤ r.remaining_lots
      → release_cancel n m ≡ record m {
        committed_exposure_units =
            wrap_int64 (m.committed_exposure_units -ℤ release_units f r n.quantity_lots);
        reservations = update m.reservations n.order_id none;
      }
  unfolding release_cancel
  release_cancel_whole n m r e same some_lots =
      let least : min_ℤ n.quantity_lots r.remaining_lots ≡ n.quantity_lots = ground arith in
      let left : r.remaining_lots -ℤ n.quantity_lots ≤ℤ pos 0 =
        omega (int_laws, ap pos_part same, ap neg_part same) in
      ground (arith, e, least, left)

  release_cancel-reserved :
      (n : Order D) (m : RiskManager D) (proposed : ℤ)
      → InInt64 m.committed_exposure_units
      → IsAdmissible n m proposed
      → let m' = release_cancel n (reserved n proposed m) in
        (m'.committed_exposure_units ≡ m.committed_exposure_units)
        × ((j : ℕ) → m'.reservations j ≡ m.reservations j)
  unfolding try_add_units
  release_cancel-reserved n m proposed h a =
      let lots = ((is_valid_order_iff n).0 a.acceptable).lots_pos in
      let sum : proposed ≡ m.committed_exposure_units +ℤ signed_notional_units n =
        ground (arith, a.sum) in
      let back = wrap_int64_inside m.committed_exposure_units (signed_notional_units n) h in
      let mine = update_self m.reservations n.order_id (some (reservation_of n)) in
      rw
        (
          release_cancel_whole n (reserved n proposed m) (reservation_of n) mine refl lots,
          release_units_whole n a.acceptable,
          sum,
        )
        (back, λ j. ground (arith, a.unreserved))

  -- Cancelling an order right after `check_order` let it through gives the committed exposure and
  -- every reservation back as they were, if the exposure was a value of `int64_t`.
  pub check_order-on_cancel :
      (order : Order D) (m : RiskManager D)
      → InInt64 m.committed_exposure_units
      → (check_order order m).0 ≡ true
      → let m' = on_cancel order (check_order order m).1 in
        (m'.committed_exposure_units ≡ m.committed_exposure_units)
        × ((j : ℕ) → m'.reservations j ≡ m.reservations j)
  unfolding on_cancel
  check_order-on_cancel order m h passed =
      let a = check_order-IsAdmissible order m passed in
      rw (a.acceptable, check_order_admits order m _ a)
        (release_cancel-reserved (normalize_order_scalars order) m _ h a)
