-- ===== src/Risk/Books.antt =====
-- The invariant of the reservations and exposures of backend/modules/risk/src/risk_manager.cpp.
pub mod Steps
use axiotick.Common.{
  ℕ, ◌≡◌, ◌≢◌, refl, sym, subst, ◌∙◌, ap, inl, inr, Bool, Bool-cases, true, false, not, ◌&&◌,
  if◌then◌else◌, ◌==◌, Option, Option-cases, none, some, List, [], ◌∷◌, update, ℤ, pos, negsuc,
  pos_part, neg_part, leb_ℤ, ltb_ℤ, ◌≤ℤ◌, ◌<ℤ◌, min_ℤ, neg_ℤ, abs_ℤ, ◌*ℤ◌, ◌+ℤ◌, ◌-ℤ◌, InInt64,
  int64_max, int64_min, +ℤ_parts, -ℤ_parts, eq_of_parts, arith, int_laws,
}
use axiotick.Core.Float.{Float, IsExtended}
use axiotick.Core.Order.{Order, side_buy, side_sell}
use axiotick.Core.FixedPoint.{
  normalize_order_scalars, signed_notional_units, to_notional_units, max_price_ticks,
  max_quantity_lots,
}
use axiotick.Core.FixedPoint.Bounds.{normalize_bounds}
use axiotick.Core.FixedPoint.Notional.{to_notional_units_exact, clamp_int64}
use axiotick.Core.Validator.{is_valid_order, validate_order, valid}
use axiotick.Risk.{
  RiskManager, RiskLimits, Reservation, wrap_int64, try_add_units, two_64, new_risk_manager,
  normalize_symbol,
}
use axiotick.Risk.Positions.{trigger_kill_switch, reset_kill_switch}
use axiotick.Risk.Reservations.{
  check_order, release_cancel, on_cancel, on_fill, release_fill, book_fill, add_filled,
  reservation_of, release_units,
}
use axiotick.Risk.Checks.{
  IsAdmissible, reserved, check_order_admits, check_order-IsAdmissible, check_order_refused,
}
use axiotick.Risk.Keeps.{Keeps, book_fill-Keeps, mark_to_market-Keeps, maybe_roll_day-Keeps}
use axiotick.Risk.History.{Call, checks, fills, cancels, marks, rolls, triggers, resets, step, run}

-- A price and lots that a valid order may have.
pub record IsScalar (ticks lots : ℤ) : Type 0 where
  pub ticks_pos : pos 0 <ℤ ticks
  pub ticks_le : ticks ≤ℤ max_price_ticks
  pub lots_pos : pos 0 <ℤ lots
  pub lots_le : lots ≤ℤ max_quantity_lots

pub record IsBooked {D : Type 0} (m : RiskManager D) : Type 0 where
  pub reserved_scalars :
      (id : ℕ) (r : Reservation)
      → m.reservations id ≡ some r
      → IsScalar r.reserved_price_ticks r.remaining_lots
  pub committed : InInt64 m.committed_exposure_units
  pub filled : InInt64 m.filled_exposure_units

-- A notional or its negation.
abbrev pub IsUnits : ℤ → Type 0
IsUnits a = (int64_min ≤ℤ a) × (a ≤ℤ pos 9_223_372_036_854_775_808)

clamp_int64-InInt64 : (a : ℤ) → InInt64 (clamp_int64 a)
clamp_int64-InInt64 a = ground arith

pub neg_ℤ-IsUnits : (a : ℤ) → InInt64 a → IsUnits (neg_ℤ a)
neg_ℤ-IsUnits a h = ground arith

pub wrap_int64-add : (a d : ℤ) → InInt64 a → IsUnits d → InInt64 (wrap_int64 (a +ℤ d))
unfolding wrap_int64
wrap_int64-add a d h k =
    ground (arith, +ℤ_parts a d, +ℤ_parts (a +ℤ d) two_64, -ℤ_parts (a +ℤ d) two_64)

wrap_int64-sub : (a d : ℤ) → InInt64 a → IsUnits d → InInt64 (wrap_int64 (a -ℤ d))
unfolding wrap_int64
wrap_int64-sub a d h k =
    ground (arith, -ℤ_parts a d, +ℤ_parts (a -ℤ d) two_64, -ℤ_parts (a -ℤ d) two_64)

pub try_add_units-InInt64 :
    (base delta sum : ℤ) → InInt64 base → try_add_units base delta ≡ some sum → InInt64 sum
unfolding try_add_units
try_add_units-InInt64 base delta sum h e =
    ground (arith, +ℤ_parts base delta, -ℤ_parts int64_max delta, -ℤ_parts int64_min delta)

module _ {D : Type 0} (f : Float D) (x : IsExtended f) where
  pub to_notional_units-InInt64 :
      (ticks lots : ℤ) → IsScalar ticks lots → InInt64 (to_notional_units f ticks lots)
  to_notional_units-InInt64 ticks lots s =
      subst InInt64
        (sym (
          to_notional_units_exact f x ticks lots (ground (arith, s.ticks_pos, s.ticks_le))
            (ground (arith, s.lots_pos, s.lots_le))))
        (clamp_int64-InInt64 (ticks *ℤ lots))

  release_units-IsUnits :
      (r : Reservation) (lots : ℤ)
      → IsScalar r.reserved_price_ticks lots
      → IsUnits (release_units f r lots)
  release_units-IsUnits r lots s =
      let raw = to_notional_units-InInt64 r.reserved_price_ticks lots s in
      let negated = neg_ℤ-IsUnits (to_notional_units f r.reserved_price_ticks lots) raw in
      ground arith

-- The lots that a release takes, and those it leaves.
pub IsScalar-released :
    (ticks lots asked : ℤ)
    → pos 0 <ℤ asked
    → IsScalar ticks lots
    → (pos 0 <ℤ min_ℤ asked lots) × IsScalar ticks (min_ℤ asked lots)
IsScalar-released ticks lots asked h s = (
  ground (arith, s.lots_pos),
  record {
    ticks_pos = s.ticks_pos;
    ticks_le = s.ticks_le;
    lots_pos = ground (arith, s.lots_pos);
    lots_le = ground (arith, s.lots_le);
  },
)

module _ {D : Type 0} ⦃f : Float D⦄ (x : IsExtended f) where
  -- A release of part or all of a reservation.
  pub released-IsBooked :
      (m : RiskManager D) (id : ℕ) (r : Reservation) (lots : ℤ)
      → IsBooked m
      → m.reservations id ≡ some r
      → pos 0 <ℤ lots
      → IsScalar r.reserved_price_ticks lots
      → IsBooked (record m {
        committed_exposure_units =
            wrap_int64 (m.committed_exposure_units -ℤ release_units f r lots);
        reservations = update m.reservations id (
            if leb_ℤ (r.remaining_lots -ℤ lots) (pos 0)
            then none
            else some (record r { remaining_lots = r.remaining_lots -ℤ lots }));
      })
  released-IsBooked m id r lots b e h s =
      let mine = b.reserved_scalars id r e in
      record {
        reserved_scalars = λ j q k. record {
          ticks_pos = ground (arith, mine.ticks_pos, b.reserved_scalars j q);
          ticks_le = ground (arith, mine.ticks_le, b.reserved_scalars j q);
          lots_pos = ground (arith, -ℤ_parts r.remaining_lots lots, b.reserved_scalars j q);
          lots_le =
              ground (arith, -ℤ_parts r.remaining_lots lots, mine.lots_le, b.reserved_scalars j q);
        };
        committed =
            wrap_int64-sub m.committed_exposure_units (release_units f r lots) b.committed
              (release_units-IsUnits f x r lots s);
        filled = b.filled;
      }
