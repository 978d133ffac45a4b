-- ===== src/Risk/Checks.antt =====
-- What `check_order` of backend/modules/risk/src/risk_manager.cpp lets through.
use axiotick.Common.{
  ◌≡◌, ◌↔◌, Bool, true, false, ◌&&◌, if◌then◌else◌, none, some, update, ℤ, leb_ℤ, ◌+ℤ◌, InInt64,
  int64_max, int64_min, +ℤ_parts, -ℤ_parts, subst, ap, arith,
}
use axiotick.Core.Float.{Float}
use axiotick.Core.Order.{Order}
use axiotick.Core.FixedPoint.{normalize_order_scalars, signed_notional_units}
use axiotick.Core.Validator.{is_valid_order}
use axiotick.Risk.{RiskManager, try_add_units}
use axiotick.Risk.Reservations.{
  check_order, reserve, reservation_of, exceeds_value, exceeds_exposure, within_symbol_limits,
}

abbrev pub fits_int64 : ℤ → Bool
fits_int64 a = leb_ℤ int64_min a && leb_ℤ a int64_max

-- For two values of `int64_t`, `try_add_units` answers their exact sum if that is a value of `int64_t`,
-- and refuses otherwise.
pub try_add_units_exact :
    (base delta : ℤ)
    → InInt64 base
    → InInt64 delta
    → try_add_units base delta ≡ (if fits_int64 (base +ℤ delta) then some (base +ℤ delta) else none)
unfolding try_add_units
try_add_units_exact base delta b d =
    ground (arith, +ℤ_parts base delta, -ℤ_parts int64_max delta, -ℤ_parts int64_min delta)

module _ {D : Type 0} ⦃f : Float D⦄ where
  -- What must hold for an order, in the form the risk manager reads it, to be let through.
  pub record IsAdmissible (n : Order D) (m : RiskManager D) (proposed : ℤ) : Type 0 where
    pub switch_off : m.kill_switch_active ≡ false
    pub acceptable : is_valid_order n ≡ true
    pub value : exceeds_value n m ≡ false
    pub symbol_limits : within_symbol_limits n m ≡ true
    pub unreserved : m.reservations n.order_id ≡ none
    pub sum : try_add_units m.committed_exposure_units (signed_notional_units n) ≡ some proposed
    pub exposure : exceeds_exposure proposed m ≡ false

  -- The state after an order is let through.
  abbrev pub reserved : Order D → ℤ → RiskManager D → RiskManager D
  reserved n proposed m = record m {
    committed_exposure_units = proposed;
    reservations = update m.reservations n.order_id (some (reservation_of n));
  }

  pub check_order_admits :
      (order : Order D) (m : RiskManager D) (proposed : ℤ)
      → IsAdmissible (normalize_order_scalars order) m proposed
      → check_order order m ≡ (true, reserved (normalize_order_scalars order) proposed m)
  unfolding check_order reserve
  check_order_admits order m proposed a =
      ground (
        arith, a.switch_off, a.acceptable, a.value, a.symbol_limits, a.unreserved, a.sum,
        a.exposure,
      )

  pub check_order-IsAdmissible :
      (order : Order D) (m : RiskManager D)
      → (check_order order m).0 ≡ true
      → IsAdmissible
          (normalize_order_scalars order)
          m
          (check_order order m).1.committed_exposure_units
  unfolding check_order reserve
  check_order-IsAdmissible order m h = record {
    switch_off = ground arith;
    acceptable = ground arith;
    value = ground arith;
    symbol_limits = ground arith;
    unreserved = ground arith;
    sum = ground arith;
    exposure = ground arith;
  }

  pub check_order_admitted :
      (order : Order D) (m : RiskManager D) (proposed : ℤ)
      → (check_order order m ≡ (true, reserved (normalize_order_scalars order) proposed m))
        ↔ IsAdmissible (normalize_order_scalars order) m proposed
  check_order_admitted order m proposed =
      let n = normalize_order_scalars order in
      (
        λ e.
            subst (IsAdmissible n m)
              (ap (λ (a : Bool × RiskManager D). a.1.committed_exposure_units) e)
              (check_order-IsAdmissible order m (ap (λ (a : Bool × RiskManager D). a.0) e)),
        check_order_admits order m proposed,
      )

  -- An order that `check_order` refuses changes nothing.
  pub check_order_refused :
      (order : Order D) (m : RiskManager D)
      → (check_order order m).0 ≡ false
      → (check_order order m).1 ≡ m
  unfolding check_order reserve
  check_order_refused order m h = ground arith
